-- ===== src/Session/Reader.antt =====
-- What the reader task sends.
use terminald.Base.Int.{ℤ, negsuc}
use terminald.Base.{
  ℕ, zero, suc, List, [], ◌∷◌, ◌++◌, Option, none, some, ◌≡◌, ◌≢◌, refl, sym, ap, Bytes, All, take,
  map, Error, Result, ok, err,
}
use terminald.Protocol.{ServerMessage, output, error, exited}
use terminald.Session.{reader_task, read_loop, after_loop, exit_message, exit_code}

-- A read that ends the loop: the end of the terminal, or an error.
abbrev pub IsLast : Result Bytes → Type 0
IsLast (ok []) = Unit {0}
IsLast (ok (b ∷ bs)) = ⊥
IsLast (err e) = Unit {0}

abbrev pub IsChunk : Bytes → Type 0
IsChunk b = b ≢ []

abbrev pub trouble : (Error → Bytes) → Result Bytes → List ServerMessage
trouble alternate (ok b) = []
trouble alternate (err e) = error (alternate e) ∷ []

take_one : (room : ℕ) (code : ℤ) → exit_message room code ≡ take room (exited code ∷ [])
unfolding exit_message
take_one zero code = refl
take_one (suc zero) code = refl
take_one (suc (suc room)) code = refl

-- The code that a client is told: that of the status, or -1 if a signal ended the process or `wait`
-- failed.
abbrev pub IsCode : Result (Option ℤ) → ℤ → Type 0
IsCode (ok (some c)) code = code ≡ c
IsCode (ok none) code = code ≡ negsuc 0
IsCode (err e) code = code ≡ negsuc 0

exit_code-IsCode :
    (status : Result (Option ℤ)) (code : ℤ) → IsCode status code → exit_code status ≡ code
unfolding exit_code
exit_code-IsCode (ok (some c)) code h = sym h
exit_code-IsCode (ok none) code h = sym h
exit_code-IsCode (err e) code h = sym h

module _ (alternate : Error → Bytes) where
  reader_task_last :
      (last : Result Bytes) (more : List (Result Bytes)) (status : Result (Option ℤ)) (room : ℕ)
      → IsLast last
      → reader_task alternate (last ∷ more) status room
        ≡ take room (trouble alternate last ++ exited (exit_code status) ∷ [])
  unfolding reader_task read_loop after_loop
  reader_task_last (ok []) more status room h = take_one room (exit_code status)
  reader_task_last (ok (b ∷ bs)) more status room h = absurd h
  reader_task_last (err e) more status zero h = take_one zero (exit_code status)
  reader_task_last (err e) more status (suc room) h =
      ap (◌∷◌ (error (alternate e))) (take_one room (exit_code status))

  pub reader_task_sends :
      (chunks : List Bytes) (last : Result Bytes) (more : List (Result Bytes))
      (status : Result (Option ℤ)) (room : ℕ)
      → All IsChunk chunks
      → IsLast last
      → reader_task alternate (map ok chunks ++ last ∷ more) status room
        ≡ take room
            (map output chunks ++ (trouble alternate last ++ exited (exit_code status) ∷ []))
  unfolding reader_task read_loop after_loop exit_message
  reader_task_sends [] last more status room h k = reader_task_last last more status room k
  reader_task_sends ([] ∷ chunks) last more status room (h, hs) k = absurd (h refl)
  reader_task_sends ((b ∷ bs) ∷ chunks) last more status zero h k = refl
  reader_task_sends ((b ∷ bs) ∷ chunks) last more status (suc room) (h, hs) k =
      ap (◌∷◌ (output (b ∷ bs))) (reader_task_sends chunks last more status room hs k)

  -- For reads that give `chunks` and then end, by the terminal's end or by an error, and whatever comes
  -- after: the channel gets the chunks as outputs in order, the error if there was one, and one
  -- `Exited` at last, with the code of the status, or -1 if it has none or `wait` failed; a receiver that
  -- is gone after `room` messages gets the first `room` of these.
  pub reader_task_feed :
      (chunks : List Bytes) (last : Result Bytes) (more : List (Result Bytes))
      (status : Result (Option ℤ)) (code : ℤ) (room : ℕ)
      → All IsChunk chunks
      → IsLast last
      → IsCode status code
      → reader_task alternate (map ok chunks ++ last ∷ more) status room
        ≡ take room (map output chunks ++ (trouble alternate last ++ exited code ∷ []))
  reader_task_feed chunks last more status code room h k c =
      rw (← exit_code-IsCode status code c) (reader_task_sends chunks last more status room h k)
