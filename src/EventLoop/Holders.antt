-- ===== src/EventLoop/Holders.antt =====
-- How often a connection is in the hands of the event loop, the queue and the threads.
use thunder_chat.Prelude.{
  ℕ, ◌+◌, ◌-◌, ◌≡◌, refl, List, [], ◌∷◌, ◌++◌, Bool, true, false, ◌==◌, if◌then◌else◌, arith,
}
use thunder_chat.Listing.{push_back, remove, is_listed}
use thunder_chat.EventLoop.{Event, take_out, add_client}

abbrev pub count : ℕ → List ℕ → ℕ
count p [] = 0
count p (q ∷ qs) = (if q == p then 1 else 0) + count p qs

-- How often a connection is in the array of events.
abbrev pub count_events : ℕ → List Event → ℕ
count_events p [] = 0
count_events p (e ∷ es) = (if e.client == p then 1 else 0) + count_events p es

pub count-append : (p : ℕ) (xs ys : List ℕ) → count p (xs ++ ys) ≡ count p xs + count p ys
count-append p [] ys = omega arith
count-append p (x ∷ xs) ys = omega (arith, count-append p xs ys)

pub count-take_out :
    (p q : ℕ) (xs : List ℕ) → count p (take_out q xs) ≡ count p xs - (if q == p then 1 else 0)
unfolding take_out
count-take_out p q [] = ground arith
count-take_out p q (x ∷ xs) = ground (arith, count-take_out p q xs)

pub count-add_client :
    (added : Bool) (p q : ℕ) (xs : List ℕ)
    → count p (add_client added q xs)
      ≡ (if added then (if q == p then 1 else 0) else 0) + count p xs
unfolding add_client
count-add_client true p q xs = refl
count-add_client false p q xs = omega arith

module _ {A : Type 0} (pointer : A → ℕ) where
  pub is_listed-remove :
      (p q : ℕ) (cs : List A)
      → is_listed pointer p (remove pointer q cs)
        ≡ (if q == p then false else is_listed pointer p cs)
  unfolding is_listed remove
  is_listed-remove p q [] = ground arith
  is_listed-remove p q (c ∷ cs) = ground (arith, is_listed-remove p q cs)

  pub is_listed-push_back :
      (p : ℕ) (cs : List A) (c : A)
      → is_listed pointer p (push_back cs c)
        ≡ (if pointer c == p then true else is_listed pointer p cs)
  unfolding push_back is_listed
  is_listed-push_back p [] c = refl
  is_listed-push_back p (d ∷ ds) c = ground (arith, is_listed-push_back p ds c)
