-- ===== src/Server/Targets/Laws.antt =====
-- Targets are connected peers, at least one of them.
use weave_fs.Base.{
  ℕ, ◌≤◌, min, ℤ, to_count, Bool, true, false, ◌&&◌, List, [], ◌∷◌, ◌++◌, Text, take, drop, length,
  take-append-drop, length-take, leb, ltb, nat_eq, list_eq, if◌then◌else◌, ◌≡◌, ◌≢◌, ◌⊎◌, refl,
  append-nil, arith, eq_iff, All, Bool-cases, inl, inr, All-take, subst,
}
use weave_fs.Exec.Laws.{ok-injective}
use weave_fs.Exec.{no_targets, no_peers, ok, err}
use weave_fs.Server.Targets.{
  is_listed, are_listed, require_connected, resolve_targets, select_peers,
}

-- Every peer of the first list is in the second.
abbrev pub AreConnected : List Text → List Text → Type 0
AreConnected ps connected = All (λ p. is_listed p connected ≡ true) ps

are_listed-AreConnected :
    (ps connected : List Text) → are_listed ps connected ≡ true → AreConnected ps connected
unfolding are_listed
are_listed-AreConnected [] connected e = tt
are_listed-AreConnected (p ∷ ps) connected e = ground (arith, are_listed-AreConnected ps connected)

AreConnected-cons :
    (q : Text) (ps connected : List Text)
    → AreConnected ps connected
    → AreConnected ps (q ∷ connected)
unfolding is_listed
AreConnected-cons q [] connected h = tt
AreConnected-cons q (p ∷ ps) connected h = ground (arith, AreConnected-cons q ps connected h.1)

AreConnected-self : (ps : List Text) → AreConnected ps ps
unfolding is_listed
AreConnected-self [] = tt
AreConnected-self (p ∷ ps) =
    (ground (arith, eq_iff p p), AreConnected-cons p ps ps (AreConnected-self ps))

take-AreConnected : (n : ℕ) (ps : List Text) → AreConnected (take n ps) ps
take-AreConnected n ps = All-take (λ p. is_listed p ps ≡ true) n ps (AreConnected-self ps)

required :
    (want connected ts : List Text)
    → require_connected want connected ≡ ok ts
    → (ts ≡ want) × AreConnected ts connected
unfolding require_connected
required want connected ts e = elim (Bool-cases (are_listed want connected)) [
  | inl c ↦
      let same = ok-injective (rw c at e) in
      (
        cc same,
        subst (λ l. AreConnected l connected) same (are_listed-AreConnected want connected c),
      )
  | inr c ↦ absurd (cc (rw c at e))
]

-- As many as asked for, or all when they are fewer.
capped : ℕ → List Text → ℕ
capped n connected = if ltb (length connected) n then length connected else n

counted :
    (connected ts : List Text) (n : ℕ)
    → (if ltb 0 n
        then (if leb (length connected) 0
            then err no_peers
            else ok (take (if ltb (length connected) n then length connected else n) connected))
        else err no_targets)
      ≡ ok ts
    → (1 ≤ length ts) × (length ts ≤ n) × (take (capped n connected) connected ≡ ts)
unfolding capped
counted connected ts n e = ground (arith, length-take {0} (capped n connected) connected)

ne-nil : (ts : List Text) → 1 ≤ length ts → ts ≢ []
ne-nil [] h = absurd (omega arith)
ne-nil (t ∷ ts) h = λ e. cc

-- When targets are resolved, they are one or more, and each is a connected peer. They are the ones
-- that were named, or all peers were asked for, or they are no more than the count.
pub resolve_targets-AreConnected :
    (connected explicit ts : List Text) (count : ℤ) (all : Bool)
    → resolve_targets connected explicit count all ≡ ok ts
    → (ts ≢ [])
      × AreConnected ts connected
      × ((ts ≡ explicit) ⊎ (all ≡ true) ⊎ (length ts ≤ to_count count))
unfolding resolve_targets
resolve_targets-AreConnected connected (p ∷ ps) ts count all e =
    let r = required (p ∷ ps) connected ts e in (rw r.0 (λ n. cc), r.1, inl r.0)
resolve_targets-AreConnected [] [] ts count true e = absurd (cc e)
resolve_targets-AreConnected (q ∷ qs) [] ts count true e =
    let same = ok-injective e in
    (
      (λ n. cc same),
      subst (λ l. AreConnected l (q ∷ qs)) same (AreConnected-self (q ∷ qs)),
      inr (inl refl),
    )
resolve_targets-AreConnected connected [] ts count false e =
    let r = counted connected ts (to_count count) e in
    (
      ne-nil ts r.0,
      subst (λ l. AreConnected l connected) r.2
          (take-AreConnected (capped (to_count count) connected) connected),
      inr (inr r.1),
    )

-- Peers that are named resolve only if each of them is connected.
pub resolve_targets_named :
    (connected explicit ts : List Text) (count : ℤ) (all : Bool)
    → explicit ≢ []
    → resolve_targets connected explicit count all ≡ ok ts
    → AreConnected explicit connected
unfolding resolve_targets
resolve_targets_named connected [] ts count all n e = absurd (n refl)
resolve_targets_named connected (p ∷ ps) ts count all n e =
    let (same, here) = required (p ∷ ps) connected ts e in
    subst (λ l. AreConnected l connected) same here

-- A write goes to the first of the connected peers: to all of them, or to as many as the factor
-- says when that is positive and smaller.
select_peers_lem :
    (factor : ℤ) (peers : List Text)
    → (rest : List Text) × (select_peers factor peers ++ rest ≡ peers)
      × (length (select_peers factor peers) ≡ (
          if ltb 0 (to_count factor) then min (to_count factor) (length peers) else length peers))
unfolding select_peers
select_peers_lem factor peers =
    elim (Bool-cases (ltb 0 (to_count factor) && ltb (to_count factor) (length peers))) [
      | inl c ↦ (
        drop (to_count factor) peers,
        ground (arith, take-append-drop (to_count factor) peers),
        ground (arith, length-take {0} (to_count factor) peers),
      )
      | inr c ↦ ([], ground (arith, append-nil peers), ground arith)
    ]
