-- ===== src/Common/Perms.antt =====
-- Permutations that move one entry of a list behind others.
use mathlib.Core.Path.{◌≡◌, sym, ap, subst}
use mathlib.Core.List.{List, [], ◌∷◌, ◌++◌, Permᴰ, append_assoc}
use mathlib.Core.List.Permᴰ

module _ {ℓ} {A : Type ℓ} where
  pub Permᴰ-path : {xs ys : List A} → xs ≡ ys → Permᴰ xs ys
  Permᴰ-path {xs} e = subst (Permᴰ xs) e (Permᴰ.refl xs)

  -- An entry moves behind the second list.
  pub Permᴰ-moved :
      (xs ys zs : List A) (x : A) → Permᴰ ((xs ++ x ∷ ys) ++ zs) ((xs ++ ys) ++ (zs ++ x ∷ []))
  Permᴰ-moved xs ys zs x = Permᴰ.trans (Permᴰ.append_right zs (Permᴰ.middle x xs ys)) (
      Permᴰ.trans (Permᴰ.append_comm (x ∷ []) ((xs ++ ys) ++ zs))
        (Permᴰ-path (append_assoc (xs ++ ys) zs (x ∷ []))))

  -- And behind the third.
  pub Permᴰ-moved_far :
      (xs ys zs ws : List A) (x : A)
      → Permᴰ (((xs ++ x ∷ ys) ++ zs) ++ ws) (((xs ++ ys) ++ zs) ++ (ws ++ x ∷ []))
  Permᴰ-moved_far xs ys zs ws x =
      Permᴰ.trans (Permᴰ-path (ap (λ l. l ++ ws) (append_assoc xs (x ∷ ys) zs))) (
        Permᴰ.trans (Permᴰ-moved xs (ys ++ zs) ws x)
          (Permᴰ-path (ap (λ l. l ++ (ws ++ x ∷ [])) (sym (append_assoc xs ys zs)))))

  -- Or in front of it.
  pub Permᴰ-handed :
      (xs ys zs : List A) (x : A) → Permᴰ ((xs ++ x ∷ ys) ++ zs) ((xs ++ ys) ++ (x ∷ zs))
  Permᴰ-handed xs ys zs x =
      Permᴰ.trans (Permᴰ.append_right zs (Permᴰ.middle x xs ys))
        (Permᴰ.symm (Permᴰ.middle x (xs ++ ys) zs))
