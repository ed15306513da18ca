-- ===== src/Types/Digest.antt =====
-- What the digest of a vote covers (types.go).
use wendy.Common.{ℕ, ◌<◌, ◌^◌, ◌≡◌, ◌↔◌, refl, sym, ◌∙◌, List, [], ◌∷◌, ◌++◌, arith, length}
use wendy.Types.{Vote, digest, put_uint64}

-- Two splits of one list with first parts of one length are the same split.
append-injective :
    {A : Type 0} (ps qs xs ys : List A)
    → length ps ≡ length qs
    → ps ++ xs ≡ qs ++ ys
    → (ps ≡ qs) × (xs ≡ ys)
append-injective [] [] xs ys n e = (refl, e)
append-injective [] (b ∷ qs) xs ys n e = absurd (omega arith)
append-injective (a ∷ ps) [] xs ys n e = absurd (omega arith)
append-injective (a ∷ ps) (b ∷ qs) xs ys n e =
    let (p, q) = append-injective ps qs xs ys (omega arith) cc in (cc, q)

put_uint64-injective : (a b : ℕ) → a < 2 ^ 64 → b < 2 ^ 64 → put_uint64 a ≡ put_uint64 b → a ≡ b
unfolding put_uint64
put_uint64-injective a b p q e = ground arith

length-put_uint64 : (a b : ℕ) → length (put_uint64 a) ≡ length (put_uint64 b)
unfolding put_uint64
length-put_uint64 a b = refl

-- The ranges of the fields that Go's types give: `uint64`, an `int64` as 64 bits, `[32]byte`.
pub record InRange (v : Vote) : Type 0 where
  pub seq : v.seq < 2 ^ 64
  pub tx_hash : length v.tx_hash ≡ 32
  pub time : v.time < 2 ^ 64
  pub prev_hash : length v.prev_hash ≡ 32

-- The fields that the digest covers.
abbrev pub SameContent : Vote → Vote → Type 0
SameContent u v =
    (u.seq ≡ v.seq) × (u.tx_hash ≡ v.tx_hash) × (u.time ≡ v.time) × (u.prev_hash ≡ v.prev_hash)

digest-SameContent : (u v : Vote) → InRange u → InRange v → digest u ≡ digest v → SameContent u v
unfolding digest
digest-SameContent u v hu hv e =
    let (s, e1) =
      append-injective (put_uint64 u.seq) (put_uint64 v.seq) _ _ (length-put_uint64 u.seq v.seq)
        e in
    let (h, e2) = append-injective u.tx_hash v.tx_hash _ _ (hu.tx_hash ∙ sym hv.tx_hash) e1 in
    let (t, p) =
      append-injective (put_uint64 u.time) (put_uint64 v.time) _ _ (length-put_uint64 u.time v.time)
        e2 in
    (
      put_uint64-injective u.seq v.seq hu.seq hv.seq s,
      h,
      put_uint64-injective u.time v.time hu.time hv.time t,
      p,
    )

-- Two votes whose fields are in the ranges of Go's types have the same digest exactly when they
-- have the same sequence number, transaction hash, time and previous hash.
pub digest-injective :
    (u v : Vote) → InRange u → InRange v → (digest u ≡ digest v) ↔ SameContent u v
unfolding digest
digest-injective u v hu hv = (digest-SameContent u v hu hv, λ e. ground arith)
