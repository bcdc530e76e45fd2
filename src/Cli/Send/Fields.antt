-- ===== src/Cli/Send/Fields.antt =====
-- What a node reads of the query of a send, besides its targets.
use weave_fs.Base.{
  ℤ, ltb, to_count, Bool, true, false, List, [], ◌∷◌, ◌++◌, Text, codes, ◌==◌, nat_eq, list_eq,
  list_beq, eq_iff, ◌≡◌, refl, ◌∙◌, arith, Bool-cases, inl, inr,
}
use weave_fs.Api.Http.{query_get}
use weave_fs.Cli.Client.{query_of}
use weave_fs.Cli.Send.{count_param, all_param, peer_params, target_params, send_query}

other_param :
    (n k v : Text) (ps rest : List (Text × Text))
    → (k == n) ≡ false
    → query_get n (query_of ((k, v) ∷ ps) ++ rest) ≡ query_get n (query_of ps ++ rest)
unfolding query_get query_of
other_param n k v ps rest h = elim (Bool-cases (v == [])) [
  | inl b ↦ rw b refl
  | inr b ↦ rw (b, h) refl
]

-- A parameter without a value is dropped, and reads as no value.
own_param :
    (n v : Text) (ps rest : List (Text × Text))
    → query_get n (query_of ps ++ rest) ≡ []
    → query_get n (query_of ((n, v) ∷ ps) ++ rest) ≡ v
unfolding query_get query_of
own_param n v ps rest h = elim (Bool-cases (v == [])) [
  | inl b ↦ rw b (h ∙ ground (arith, eq_iff v []))
  | inr b ↦ rw b (ground (arith, eq_iff n n))
]

module _ (n : Text) (no_peer : (codes "peer" == n) ≡ false) (no_count : (codes "n" == n) ≡ false)
    (not_all : (codes "all" == n) ≡ false) where
  no_all_param : (all : Bool) → query_get n (all_param all) ≡ []
  unfolding all_param query_get
  no_all_param true = rw not_all refl
  no_all_param false = refl

  no_count_param : (count : ℤ) (all : Bool) → query_get n (count_param count ++ all_param all) ≡ []
  unfolding count_param query_get
  no_count_param count all = elim (Bool-cases (ltb 0 (to_count count))) [
    | inl b ↦ rw (b, no_count) (no_all_param all)
    | inr b ↦ rw b (no_all_param all)
  ]

  no_target_param :
      (peers : List Text) (count : ℤ) (all : Bool)
      → query_get n (target_params peers count all) ≡ []
  unfolding target_params peer_params query_get
  no_target_param [] count all = no_count_param count all
  no_target_param (p ∷ ps) count all = rw no_peer (no_target_param ps count all)

pub send_query_fields :
    (key message version as_key : Text) (peers : List Text) (count : ℤ) (all : Bool)
    → (query_get (codes "message") (send_query key message version as_key peers count all)
        ≡ message)
      × (query_get (codes "version") (send_query key message version as_key peers count all)
          ≡ version)
      × (query_get (codes "as") (send_query key message version as_key peers count all) ≡ as_key)
unfolding send_query list_beq query_get
send_query_fields key message version as_key peers count all =
    let rest = target_params peers count all in
    let a : Text × Text = (codes "as", as_key) in
    let v : Text × Text = (codes "version", version) in
    (
      own_param (codes "message") message (v ∷ (a ∷ [])) rest (
          other_param (codes "message") (codes "version") version (a ∷ []) rest refl
          ∙ other_param (codes "message") (codes "as") as_key [] rest refl
          ∙ no_target_param (codes "message") refl refl refl peers count all),
      other_param (codes "version") (codes "message") message (v ∷ (a ∷ [])) rest refl
          ∙ own_param (codes "version") version (a ∷ []) rest (
              other_param (codes "version") (codes "as") as_key [] rest refl
              ∙ no_target_param (codes "version") refl refl refl peers count all),
      other_param (codes "as") (codes "message") message (v ∷ (a ∷ [])) rest refl
          ∙ other_param (codes "as") (codes "version") version (a ∷ []) rest refl
          ∙ own_param (codes "as") as_key [] rest
              (no_target_param (codes "as") refl refl refl peers count all),
    )
