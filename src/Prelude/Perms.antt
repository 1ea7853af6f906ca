-- ===== src/Prelude/Perms.antt =====
-- Rearrangements of appended lists.
use mathlib.Core.Path.{subst, sym}
use mathlib.Core.List.Perm
use mathlib.Core.List.{Perm, List, ◌++◌, perm_append_comm, append_assoc}

module _ {ℓ} {A : Type ℓ} where
  pub perm_rotate : (a b c : List A) → Perm (a ++ (b ++ c)) (b ++ (a ++ c))
  perm_rotate a b c =
      subst (λ l. Perm l (b ++ (a ++ c))) (append_assoc a b c)
        (subst (λ l. Perm ((a ++ b) ++ c) l) (append_assoc b a c)
          (Perm.append_right c (perm_append_comm a b)))

  -- A list appended behind, or between, comes first.
  pub perm_last : (a b c : List A) → Perm (a ++ (b ++ c)) (c ++ (a ++ b))
  perm_last a b c =
      subst (λ l. Perm l (c ++ (a ++ b))) (append_assoc a b c) (perm_append_comm (a ++ b) c)

  pub perm_between : (a b c : List A) → Perm ((a ++ b) ++ c) (b ++ (a ++ c))
  perm_between a b c =
      subst (λ l. Perm l (b ++ (a ++ c))) (sym (append_assoc a b c)) (perm_rotate a b c)
