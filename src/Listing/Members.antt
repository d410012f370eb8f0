-- ===== src/Listing/Members.antt =====
-- What the operations of Listing.antt do to the members of a list and to their number.
use thunder_chat.Prelude.{
  ℕ, suc, ◌≡◌, ◌≢◌, refl, ap, List, [], ◌∷◌, true, false, Bool-cases, inl, inr, arith, length, ◌==◌,
}
use thunder_chat.Listing.{push_back, remove, is_listed}

module _ {A : Type 0} where
  pub length-push_back : (cs : List A) (c : A) → length (push_back cs c) ≡ suc (length cs)
  unfolding push_back
  length-push_back [] c = refl
  length-push_back (d ∷ ds) c = ap suc (length-push_back ds c)

  -- Some of the elements, in order.
  pub data Sublist : List A → List A → Type 0 where
    none_there : Sublist [] []
    kept : (c : A) (ds cs : List A) → Sublist ds cs → Sublist (c ∷ ds) (c ∷ cs)
    dropped : (c : A) (ds cs : List A) → Sublist ds cs → Sublist ds (c ∷ cs)

module _ {A : Type 0} (pointer : A → ℕ) where
  -- No two elements are the same object.
  pub data AreDistinct : List A → Type 0 where
    no_member : AreDistinct []
    distinct :
        (c : A) (cs : List A)
        → is_listed pointer (pointer c) cs ≡ false
        → AreDistinct cs
        → AreDistinct (c ∷ cs)

  is_listed-push_back :
      (p : ℕ) (cs : List A) (c : A)
      → is_listed pointer p cs ≡ false
      → p ≢ pointer c
      → is_listed pointer p (push_back cs c) ≡ false
  unfolding push_back is_listed
  is_listed-push_back p [] c h other = ground arith
  is_listed-push_back p (d ∷ ds) c h other = ground (arith, is_listed-push_back p ds c)

  pub AreDistinct-push_back :
      (cs : List A) (c : A)
      → AreDistinct cs
      → is_listed pointer (pointer c) cs ≡ false
      → AreDistinct (push_back cs c)
  unfolding push_back is_listed
  AreDistinct-push_back cs c no_member h = distinct c [] h no_member
  AreDistinct-push_back cs c (distinct d ds apart ok) h =
      distinct d (push_back ds c)
        (is_listed-push_back (pointer d) ds c apart (λ e. ground (arith, h, e)))
        (AreDistinct-push_back ds c ok (ground (arith, h)))

  is_listed-Sublist :
      (q : ℕ) (ds cs : List A)
      → Sublist ds cs
      → is_listed pointer q cs ≡ false
      → is_listed pointer q ds ≡ false
  unfolding is_listed
  is_listed-Sublist q ds cs none_there h = refl
  is_listed-Sublist q ds cs (kept c es fs s) h = ground (arith, h, is_listed-Sublist q es fs s)
  is_listed-Sublist q ds cs (dropped c _ fs s) h = is_listed-Sublist q ds fs s (ground (arith, h))

  pub AreDistinct-Sublist : (ds cs : List A) → Sublist ds cs → AreDistinct cs → AreDistinct ds
  AreDistinct-Sublist ds cs none_there a = no_member
  AreDistinct-Sublist ds cs (kept c es fs s) (distinct _ _ apart ok) =
      distinct c es (is_listed-Sublist (pointer c) es fs s apart) (AreDistinct-Sublist es fs s ok)
  AreDistinct-Sublist ds cs (dropped c _ fs s) (distinct _ _ apart ok) =
      AreDistinct-Sublist ds fs s ok

  pub remove-Sublist : (p : ℕ) (cs : List A) → Sublist (remove pointer p cs) cs
  unfolding remove
  remove-Sublist p [] = none_there
  remove-Sublist p (c ∷ cs) = elim (Bool-cases (pointer c == p)) [
    | inl e ↦ rw e (dropped c (remove pointer p cs) cs (remove-Sublist p cs))
    | inr e ↦ rw e (kept c (remove pointer p cs) cs (remove-Sublist p cs))
  ]

  length-remove_none :
      (p : ℕ) (cs : List A)
      → is_listed pointer p cs ≡ false
      → length (remove pointer p cs) ≡ length cs
  unfolding is_listed remove
  length-remove_none p [] h = refl
  length-remove_none p (c ∷ cs) h = ground (arith, length-remove_none p cs)

  pub length-remove :
      (p : ℕ) (cs : List A)
      → AreDistinct cs
      → is_listed pointer p cs ≡ true
      → suc (length (remove pointer p cs)) ≡ length cs
  unfolding is_listed remove
  length-remove p cs no_member h = ground (arith, h)
  length-remove p cs (distinct c ds apart ok) h =
      ground (arith, h, apart, length-remove p ds ok, length-remove_none p ds)
