-- ===== src/Server/Handlers/Replies.antt =====
-- What the peer reads of an answer is what was sent, or nothing.
use weave_fs.Base.{
  ℕ, zero, suc, ◌-◌, ◌≤◌, ◌<◌, Bool, true, false, Option, none, some, [], ◌∷◌, ◌++◌, Bytes, take,
  length, ltb, ◌≡◌, ◌⊎◌, refl, arith, ap, ◌∙◌, sym, inl, inr, Bool-cases, append-nil,
}
use weave_fs.Exec.Laws.{ok-injective}
use weave_fs.Exec.{Error, Result, ok, err}
use weave_fs.Disk.{Reader}
use weave_fs.Store.Version.{Json, IsRoundTrip}
use weave_fs.Proto.Codec.{frame, read_message}
use weave_fs.Proto.Codec.Laws.{read_message-frame, read_message_truncated, read_message_empty}
use weave_fs.Server.Handlers.{Stream, fitting, reply_of, reply}

same_take : (n m : ℕ) (x : Bytes) → n ≡ m → take n x ≡ take m x
same_take n m x e = ap (λ k. take k x) e

pub take-append_minus : (n : ℕ) (b x : Bytes) → take n (b ++ x) ≡ take n b ++ take (n - length b) x
take-append_minus zero b x = same_take 0 (0 - length b) x (omega arith)
take-append_minus (suc n) [] x = same_take (suc n) (suc n - 0) x (omega arith)
take-append_minus (suc n) (c ∷ b) x =
    ap (λ l. c ∷ l)
      (take-append_minus n b x
        ∙ ap (λ l. take n b ++ l)
            (same_take (n - length b) (suc n - suc (length b)) x (omega arith)))

pub take_all : (n : ℕ) (b : Bytes) → length b ≤ n → take n b ≡ b
take_all zero [] h = refl
take_all zero (c ∷ b) h = absurd (omega arith)
take_all (suc n) [] h = refl
take_all (suc n) (c ∷ b) h = ap (λ l. c ∷ l) (take_all n b (omega arith))

-- The room that is left behind so many bytes.
unfoldable pub room_behind : Option ℕ → ℕ → Option ℕ
room_behind none n = none
room_behind (some m) n = some (m - n)

less : (n : ℕ) (b : Bytes) → ltb n (length b) ≡ true → n < length b
less n b h = ground arith

at_least : (n : ℕ) (b : Bytes) → ltb n (length b) ≡ false → length b ≤ n
at_least n b h = ground arith

no_room : (n : ℕ) (b : Bytes) → ltb n (length b) ≡ true → n - length b ≡ 0
no_room n b h = ground arith

pub Result-cases :
    {A : Type 0} (r : Result A) → ((a : A) × (r ≡ ok a)) ⊎ ((e : Error) × (r ≡ err e))
Result-cases (ok a) = inl (a, refl)
Result-cases (err e) = inr (e, refl)

module _ {A : Type 0} (json : Json A) (trip : IsRoundTrip json) where
  read_framed :
      (msg m : A) (b x : Bytes) (f : Bool) (rest : Reader)
      → frame json msg ≡ ok b
      → read_message json (record { bytes = b ++ x; fails = f }) ≡ ok (m, rest)
      → (m ≡ msg) × (rest ≡ record { bytes = x; fails = f })
  read_framed msg m b x f rest e h =
      let whole = read_message-frame json trip msg b (record { bytes = x; fails = f }) e in
      let same = ok-injective (sym h ∙ whole) in (ap (λ y. y.0) same, ap (λ y. y.1) same)

  -- What comes through of a message with bytes behind it reads as the message, with what came
  -- through of the bytes, or is refused.
  pub read_message-fitting :
      (msg m : A) (b x : Bytes) (room : Option ℕ) (f : Bool) (rest : Reader)
      → frame json msg ≡ ok b
      → read_message json (record { bytes = fitting room (b ++ x); fails = f }) ≡ ok (m, rest)
      → (m ≡ msg) × (rest ≡ record { bytes = fitting (room_behind room (length b)) x; fails = f })
  unfolding fitting room_behind
  read_message-fitting msg m b x none f rest e h = read_framed msg m b x f rest e h
  read_message-fitting msg m b x (some n) f rest e h = elim (Bool-cases (ltb n (length b))) [
    | inl short ↦
        let cut : take n (b ++ x) ≡ take n b =
          take-append_minus n b x ∙ (rw (no_room n b short) (append-nil (take n b))) in
        absurd (
          cc (
            h,
            read_message_truncated json msg b n (record { bytes = x; fails = f }) e
                (less n b short),
            ap (λ l. read_message json (record { bytes = l; fails = f })) cut,
          ))
    | inr fits ↦
        let whole : take n (b ++ x) ≡ b ++ take (n - length b) x =
          take-append_minus n b x
          ∙ ap (λ l. l ++ take (n - length b) x) (take_all n b (at_least n b fits)) in
        read_framed msg m b (take (n - length b) x) f rest e
          (ap (λ l. read_message json (record { bytes = l; fails = f })) (sym whole) ∙ h)
  ]

  -- What is read of a reply is the message that was sent.
  pub read_message-reply :
      (stream : Stream) (msg m : A) (f : Bool) (rest : Reader)
      → read_message json (record { bytes = (reply json stream msg).sent; fails = f })
        ≡ ok (m, rest)
      → m ≡ msg
  unfolding reply reply_of
  read_message-reply stream msg m f rest h = elim (Result-cases (frame json msg)) [
    | inl (b, e) ↦
        (read_message-fitting msg m b [] stream.room f rest e (rw append-nil (rw e at h))).0
    | inr (x, e) ↦
        absurd (cc (rw e at h, read_message_empty json (record { bytes = []; fails = f })))
  ]
