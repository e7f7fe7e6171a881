-- ===== src/Channel/Tests.antt =====
-- A list as a bounded channel.
use terminald.Base.{
  arith, ℕ, List, [], ◌∷◌, ◌++◌, Option, none, some, ltb, ◌≡◌, ◌≤◌, ◌<◌, refl, length,
  length-append, if◌then◌else◌,
}
use terminald.Channel.{Channel, IsChannel}

module _ {A : Type 0} where
  abbrev push : ℕ → A → List A → Option (List A)
  push capacity m q = if ltb (length q) capacity then some (q ++ m ∷ []) else none

  abbrev pop : List A → Option (A × List A)
  pop [] = none
  pop (m ∷ q) = some (m, q)

  abbrev pub bounded_list : ℕ → Channel A (List A)
  bounded_list capacity = record { empty = []; send = push capacity; recv = pop; contents = λ q. q }

  pushes :
      (capacity : ℕ) (m : A) (q r : List A)
      → push capacity m q ≡ some r
      → (r ≡ q ++ m ∷ []) × (length q < capacity)
  pushes capacity m q r h = ground arith

  full_when_waiting :
      (capacity : ℕ) (m : A) (q : List A) → push capacity m q ≡ none → capacity ≤ length q
  full_when_waiting capacity m q h = ground arith

  pops : (m : A) (q r : List A) → pop q ≡ some (m, r) → q ≡ m ∷ r
  pops m [] r h = cc
  pops m (n ∷ q) r h = cc

  empty_when_waiting : (q : List A) → pop q ≡ none → q ≡ []
  empty_when_waiting [] h = refl
  empty_when_waiting (m ∷ q) h = cc

  pub bounded_list-IsChannel : (capacity : ℕ) → IsChannel capacity (bounded_list capacity)
  bounded_list-IsChannel capacity = record {
    starts_empty = refl;
    sends_behind = λ m q r h. (pushes capacity m q r h).0;
    waits_when_full = full_when_waiting capacity;
    stays_bounded =
        λ m q r h. let p = pushes capacity m q r h in rw (p.0, length-append) (omega arith);
    receives_first = pops;
    waits_when_empty = empty_when_waiting;
  }
