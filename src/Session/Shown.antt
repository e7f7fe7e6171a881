-- ===== src/Session/Shown.antt =====
-- From the reads of the terminal to the client's screen.
use terminald.Base.Int.{ℤ}
use terminald.Base.{
  ℕ, List, [], ◌∷◌, ◌++◌, Option, ◌≡◌, refl, sym, ap, subst, ◌∙◌, append_assoc, append-nil, map,
  take, drop, take-append-drop, Bytes, All, Error, Result, ok, err,
}
use terminald.Protocol.{ServerMessage, output, exited, SerdeJson}
use terminald.Session.{Turn, drive_socket, reader_task, exit_code}
use terminald.Session.Reader.{IsChunk, IsLast, trouble, reader_task_sends}
use terminald.Session.Screen.{
  output_of, outputs_of, screen, received_of, IsPrefix, drive_socket-Shows,
}

pub outputs_of-append :
    (ms ns : List ServerMessage) → outputs_of (ms ++ ns) ≡ outputs_of ms ++ outputs_of ns
outputs_of-append [] ns = refl
outputs_of-append (m ∷ ms) ns =
    ap (λ l. output_of m ++ l) (outputs_of-append ms ns) ∙ sym (append_assoc (output_of m) _ _)

abbrev pub concat : List Bytes → Bytes
concat [] = []
concat (b ∷ bs) = b ++ concat bs

outputs_of-output : (chunks : List Bytes) → outputs_of (map output chunks) ≡ concat chunks
outputs_of-output [] = refl
outputs_of-output (b ∷ bs) = ap (λ l. b ++ l) (outputs_of-output bs)

-- A function that divides as its argument does keeps prefixes.
pub additive-IsPrefix {ℓ ℓ'} :
    {A : Type ℓ} {B : Type ℓ'} (f : List A → List B)
    → ((xs ys : List A) → f (xs ++ ys) ≡ f xs ++ f ys)
    → (xs : List A) {ys : List A} → IsPrefix xs ys
    → IsPrefix (f xs) (f ys)
additive-IsPrefix f additive xs (rest, e) = (f rest, sym (additive xs rest) ∙ ap f e)

outputs_of-IsPrefix :
    (ms : List ServerMessage) {ns : List ServerMessage}
    → IsPrefix ms ns
    → IsPrefix (outputs_of ms) (outputs_of ns)
outputs_of-IsPrefix = additive-IsPrefix outputs_of outputs_of-append

pub IsPrefix-trans {ℓ} :
    {A : Type ℓ} (xs : List A) {ys zs : List A} → IsPrefix xs ys → IsPrefix ys zs → IsPrefix xs zs
IsPrefix-trans xs (r, e) (s, f) = (r ++ s, sym (append_assoc xs r s) ∙ ap (λ l. l ++ s) e ∙ f)

take-IsPrefix {ℓ} : {A : Type ℓ} (n : ℕ) (xs : List A) → IsPrefix (take n xs) xs
take-IsPrefix n xs = (drop n xs, take-append-drop n xs)

outputs_of-trouble :
    (alternate : Error → Bytes) (last : Result Bytes) (c : ℤ)
    → outputs_of (trouble alternate last ++ exited c ∷ []) ≡ []
outputs_of-trouble alternate (ok b) c = refl
outputs_of-trouble alternate (err e) c = refl

outputs_of_feed :
    (alternate : Error → Bytes) (chunks : List Bytes) (last : Result Bytes) (c : ℤ)
    → outputs_of (map output chunks ++ (trouble alternate last ++ exited c ∷ [])) ≡ concat chunks
outputs_of_feed alternate chunks last c =
    outputs_of-append (map output chunks) _
    ∙ ap (λ l. outputs_of (map output chunks) ++ l) (outputs_of-trouble alternate last c)
    ∙ append-nil _
    ∙ outputs_of-output chunks

module _ (json : SerdeJson) (alternate : Error → Bytes) where
  -- From the PTY to the screen: if the loop receives a prefix of what the reader task sends, as it does
  -- from a channel that keeps the order, then whatever the client sends and whichever calls fail, the
  -- client is shown a prefix of the bytes that were read, in order, with nothing lost before its end.
  pub session_shows_prefix :
      (chunks : List Bytes) (last : Result Bytes) (more : List (Result Bytes))
      (status : Result (Option ℤ)) (room : ℕ) (ts : List Turn)
      → All IsChunk chunks
      → IsLast last
      → IsPrefix (received_of ts) (reader_task alternate (map ok chunks ++ last ∷ more) status room)
      → IsPrefix (screen (drive_socket json alternate ts).actions) (concat chunks)
  session_shows_prefix chunks last more status room ts h k received_prefix =
      let shown =
        IsPrefix-trans _ (drive_socket-Shows json alternate ts).0
          (outputs_of-IsPrefix _ received_prefix) in
      let feed = reader_task_sends alternate chunks last more status room h k in
      let sent = outputs_of-IsPrefix _ (
        take-IsPrefix room
          (map output chunks ++ (trouble alternate last ++ exited (exit_code status) ∷ []))) in
      IsPrefix-trans _
        (subst (λ l. IsPrefix (screen (drive_socket json alternate ts).actions) (outputs_of l)) feed
          shown)
        (subst
          (λ l.
            IsPrefix
              (outputs_of (
                take room (
                  map output chunks ++ (trouble alternate last ++ exited (exit_code status) ∷ []))))
              l)
          (outputs_of_feed alternate chunks last (exit_code status)) sent)
