-- ===== src/Strings/Laws.antt =====
-- Splitting and joining undo each other, and a split at a separator splits in two.
use weave_fs.Base.{ℕ, true, false, List, [], ◌∷◌, ◌++◌, Text, nat_eq, All, ◌≡◌, ◌≢◌, refl, arith}
use weave_fs.Strings.{push, split, join, is_space, trim_left, trim_right, trim_space}

-- A text without the character.
abbrev pub Lacks : ℕ → Text → Type 0
Lacks sep = All (λ c. c ≢ sep)

push-append : (c : ℕ) (ps qs : List Text) → ps ≢ [] → push c ps ++ qs ≡ push c (ps ++ qs)
unfolding push
push-append c [] qs h = absurd (h refl)
push-append c (p ∷ ps) qs h = refl

pub split-ne-nil : (sep : ℕ) (s : Text) → split sep s ≢ []
unfolding split push
split-ne-nil sep [] = λ e. cc
split-ne-nil sep (c ∷ s) = ground (arith, split-ne-nil sep s)

pub split-append : (sep : ℕ) (s t : Text) → split sep (s ++ (sep ∷ t)) ≡ split sep s ++ split sep t
unfolding split
split-append sep [] t = ground arith
split-append sep (c ∷ s) t =
    ground
      (arith, split-append sep s t, push-append c (split sep s) (split sep t), split-ne-nil sep s)

pub split_of_Lacks : (sep : ℕ) (s : Text) → Lacks sep s → split sep s ≡ s ∷ []
unfolding split push
split_of_Lacks sep [] h = refl
split_of_Lacks sep (c ∷ s) h = ground (arith, split_of_Lacks sep s h.1)

pub split-join :
    (sep : ℕ) (ps : List Text) → ps ≢ [] → All (Lacks sep) ps → split sep (join sep ps) ≡ ps
unfolding join
split-join sep [] h l = absurd (h refl)
split-join sep (p ∷ []) h l = split_of_Lacks sep p l.0
split-join sep (p ∷ q ∷ ps) h l =
    rw (split-append, split_of_Lacks sep p l.0, split-join sep (q ∷ ps) (λ e. cc) l.1)

-- No character is a space.
abbrev pub HasNoSpace : Text → Type 0
HasNoSpace = All (λ c. is_space c ≡ false)

trim_left_lem : (s : Text) → HasNoSpace s → trim_left s ≡ s
unfolding trim_left
trim_left_lem [] h = refl
trim_left_lem (c ∷ s) h = ground arith

-- Spaces behind a text without any are dropped.
trim_right_lem :
    (s t : Text) → HasNoSpace s → All (λ c. is_space c ≡ true) t → trim_right (s ++ t) ≡ s
unfolding trim_right
trim_right_lem [] [] h g = refl
trim_right_lem [] (d ∷ t) h g = ground (arith, trim_right_lem [] t h g.1)
trim_right_lem (c ∷ []) t h g = ground (arith, trim_right_lem [] t h.1 g)
trim_right_lem (c ∷ d ∷ s) t h g = ground (arith, trim_right_lem (d ∷ s) t h.1 g)

pub trim_space-append :
    (c : ℕ) (s t : Text)
    → HasNoSpace (c ∷ s)
    → All (λ d. is_space d ≡ true) t
    → trim_space ((c ∷ s) ++ t) ≡ c ∷ s
unfolding trim_space
trim_space-append c s t h g = ground (arith, trim_right_lem (c ∷ s) t h g)
