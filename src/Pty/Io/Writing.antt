-- ===== src/Pty/Io/Writing.antt =====
-- `write_all` writes all of its data, in order, or says why not.
use terminald.Base.{
  ℕ, zero, suc, ◌+◌, ◌≤◌, List, [], ◌∷◌, ◌++◌, append_assoc, Option, none, some, false, ◌≡◌, refl,
  sym, ap, ◌∙◌, inl, inr, arith, Bytes, All, length, take, drop, take-append-drop, Error, Result,
  ok, err, ltb, Bool-cases,
}
use native.Mathlib.Nat.{zero-add, suc-add}
use terminald.Pty.{kind, is_would_block}
use terminald.Pty.Io.{
  WriteAnswer, wrote, write_failed, Turn, write_pty, Written, write_case, write_turn, write_from,
  write_all,
}

-- Success, and no other end of the call.
abbrev pub Succeeded : Written → Type 0
Succeeded w = w.result ≡ some (ok tt)

-- What was taken is a first part of the bytes, and all of them after a success.
abbrev pub IsWritten : Bytes → Written → Type 0
IsWritten d w = (rest : Bytes) × (d ≡ w.taken ++ rest) × (Succeeded w → rest ≡ [])

drop-drop : (m n : ℕ) (xs : Bytes) → drop n (drop m xs) ≡ drop (m + n) xs
drop-drop zero n xs = rw (zero-add n)
drop-drop (suc m) zero [] = rw (suc-add m 0)
drop-drop (suc m) (suc n) [] = rw (suc-add m (suc n))
drop-drop (suc m) n (x ∷ xs) = rw (suc-add m n) (drop-drop m n xs)

drop_all : (n : ℕ) (xs : Bytes) → length xs ≤ n → drop n xs ≡ []
drop_all zero [] h = refl
drop_all zero (x ∷ xs) h = absurd (omega arith)
drop_all (suc n) [] h = refl
drop_all (suc n) (x ∷ xs) h = drop_all n xs (omega arith)

ended-IsWritten :
    (d : Bytes) (e : Error) → IsWritten d (record { result = some (err e); taken = [] })
ended-IsWritten d e = (d, refl, λ h. cc)

waiting-IsWritten : (d : Bytes) → IsWritten d (record { result = none; taken = [] })
waiting-IsWritten d = (d, refl, λ h. cc)

module _ (d : Bytes) where
  wrote-IsWritten :
      (written n : ℕ) (w : Written)
      → IsWritten (drop (written + n) d) w
      → IsWritten (drop written d) (record w { taken = take n (drop written d) ++ w.taken })
  wrote-IsWritten written n w (rest, e, all) = (
    rest,
    sym (take-append-drop n (drop written d))
        ∙ ap (◌++◌ (take n (drop written d))) (drop-drop written n d ∙ e)
        ∙ sym (append_assoc (take n (drop written d)) w.taken rest),
    all,
  )

  write_case-IsWritten :
      (written : ℕ) (o : Option WriteAnswer) (next : ℕ → Written)
      → ((w : ℕ) → IsWritten (drop w d) (next w))
      → IsWritten (drop written d) (write_case d written o next)
  unfolding write_case
  write_case-IsWritten written none next ih = waiting-IsWritten _
  write_case-IsWritten written (some (wrote zero)) next ih = ended-IsWritten _ _
  write_case-IsWritten written (some (wrote (suc n))) next ih =
      wrote-IsWritten written (suc n) (next (written + suc n)) (ih (written + suc n))
  write_case-IsWritten written (some (write_failed e)) next ih =
      elim (Bool-cases (is_would_block (kind e))) [
        | inl again ↦ rw again (ih written)
        | inr failed ↦ rw failed (ended-IsWritten _ _)
      ]

  write_turn-IsWritten :
      (written : ℕ) (ready : Result (Unit {0})) (answers : List WriteAnswer) (next : ℕ → Written)
      → ((w : ℕ) → IsWritten (drop w d) (next w))
      → IsWritten
          (drop written d)
          (write_turn d written (record { ready = ready; answers = answers }) next)
  unfolding write_turn
  write_turn-IsWritten written (err e) answers next ih = ended-IsWritten _ _
  write_turn-IsWritten written (ok u) answers next ih =
      write_case-IsWritten written (write_pty answers) next ih

  done-IsWritten :
      (written : ℕ)
      → ltb written (length d) ≡ false
      → IsWritten (drop written d) (record { result = some (ok tt); taken = [] })
  done-IsWritten written h = ([], drop_all written d (ground arith), λ _. refl)

  write_from-IsWritten :
      (turns : List (Turn WriteAnswer)) (written : ℕ)
      → IsWritten (drop written d) (write_from d turns written)
  unfolding write_from
  write_from-IsWritten [] written = elim (Bool-cases (ltb written (length d))) [
    | inl more ↦ rw more (waiting-IsWritten _)
    | inr all ↦ rw all (done-IsWritten written all)
  ]
  write_from-IsWritten (t ∷ ts) written = elim (Bool-cases (ltb written (length d))) [
    | inl more ↦
        rw more (
          write_turn-IsWritten written t.ready t.answers (write_from d ts)
            (write_from-IsWritten ts))
    | inr all ↦ rw all (done-IsWritten written all)
  ]

  -- However the system divides, interrupts or puts off the writes, the bytes that it took are a first
  -- part of the data in its order; after a success they are the data.
  pub write_all-IsWritten : (turns : List (Turn WriteAnswer)) → IsWritten d (write_all d turns)
  unfolding write_all
  write_all-IsWritten turns = write_from-IsWritten turns 0

-- The system is ready, and takes at least one byte after any number of interruptions.
abbrev pub IsProductive : Turn WriteAnswer → Type 0
IsProductive t = (t.ready ≡ ok tt) × ((n : ℕ) × (write_pty t.answers ≡ some (wrote (suc n))))

write_turn_productive :
    (d : Bytes) (written n : ℕ) (ready : Result (Unit {0})) (answers : List WriteAnswer)
    (next : ℕ → Written)
    → ready ≡ ok tt
    → write_pty answers ≡ some (wrote (suc n))
    → (write_turn d written (record { ready = ready; answers = answers }) next).result
      ≡ (next (written + suc n)).result
unfolding write_turn
write_turn_productive d written n ready answers next r took = rw (r, took)

module _ (d : Bytes) where
  write_from_succeeds :
      (turns : List (Turn WriteAnswer)) (written : ℕ)
      → All IsProductive turns
      → length d ≤ written + length turns
      → Succeeded (write_from d turns written)
  unfolding write_from
  write_from_succeeds [] written h fits =
      let done : ltb written (length d) ≡ false = ground arith in rw done
  write_from_succeeds (t ∷ ts) written ((ready, (n, took)), hs) fits =
      elim (Bool-cases (ltb written (length d))) [
        | inl more ↦ rw more (
            write_turn_productive d written n t.ready t.answers (write_from d ts) ready took
            ∙ write_from_succeeds ts (written + suc n) hs (omega arith))
        | inr all ↦ rw all
      ]

  -- The loop ends with success if the system takes at least one byte in each of as many turns as there
  -- are bytes.
  pub write_all_succeeds :
      (turns : List (Turn WriteAnswer))
      → All IsProductive turns
      → length d ≤ length turns
      → Succeeded (write_all d turns)
  unfolding write_all
  write_all_succeeds turns h fits = write_from_succeeds turns 0 h (omega arith)
