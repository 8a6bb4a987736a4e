-- ===== src/Audit/Chain/Tampering.antt =====
-- What a verified chain binds, and what it does not.
use mathlib.Core.List.{append_assoc}
use magiclaw.Common.{
  ℕ, ◌<◌, ◌≡◌, ◌≢◌, ◌⊎◌, inl, inr, refl, ap, sym, ◌∙◌, Option, none, some, List, [], ◌∷◌, ◌++◌, map,
  arith, length, All, ◌==◌, Bool-cases, list_eq, nat_eq, option_eq,
}
use magiclaw.Common.Result.{ok}
use magiclaw.Common.Text.{Text, as_bytes}
use magiclaw.Audit.Chain.{
  ChainRow, or_empty, preimage, compute_entry_hash, row_hash, verify_from, verify, to_hex,
  to_be_bytes,
}
use magiclaw.Audit.Chain.Hex.{
  to_hex-injective, as_bytes_ascii, to_hex-IsAscii, to_hex-NoPipe, split_pipe, NoPipe,
  as_bytes-append,
}

-- Two byte strings with one digest.
abbrev pub Collision : (List ℕ → List ℕ) → Type 0
Collision sha256 = (x : List ℕ) × (y : List ℕ) × (x ≢ y) × (sha256 x ≡ sha256 y)

-- What an entry says: all that is hashed but the previous hash.
abbrev pub body : ChainRow → List ℕ
body r =
    as_bytes (or_empty r.route_key)
    ++ (b'|' ∷ as_bytes r.action ++ (b'|' ∷ as_bytes r.result ++ (b'|' ∷ to_be_bytes r.created_at)))

abbrev pub bodies : List ChainRow → List (List ℕ)
bodies rows = map body rows

empty-NoPipe : NoPipe (as_bytes [])
unfolding as_bytes
empty-NoPipe = tt

as_bytes_pipe : (s : Text) → as_bytes (b'|' ∷ s) ≡ b'|' ∷ as_bytes s
unfolding as_bytes
as_bytes_pipe s = refl

module _ (sha256 : List ℕ → List ℕ) where
  -- What a successful round of `verify` has checked.
  pub verify_cons :
      (head : Option Text) (r : ChainRow) (rows : List ChainRow) (last : Option Text)
      → verify_from sha256 head (r ∷ rows) ≡ ok last
      → (r.prev_hash ≡ head)
        × (row_hash sha256 r ≡ r.entry_hash)
        × (verify_from sha256 (some (row_hash sha256 r)) rows ≡ ok last)
  unfolding verify_from
  verify_cons head r rows last h = ground (
    arith,
    (option_eq {A = Text}).eq_iff r.prev_hash head,
    (list_eq {A = ℕ}).eq_iff (row_hash sha256 r) r.entry_hash,
  )

  row_hash_shape : (r : ChainRow) → (x : List ℕ) × (row_hash sha256 r ≡ to_hex (sha256 x))
  unfolding row_hash compute_entry_hash
  row_hash_shape r = (_, refl)

  row_hash_lem :
      (r : ChainRow)
      → row_hash sha256 r ≡ to_hex (sha256 (as_bytes (or_empty r.prev_hash) ++ b'|' ∷ body r))
  unfolding row_hash compute_entry_hash preimage
  row_hash_lem r = refl

  row_hash_separator :
      (r : ChainRow) (a b c : Text)
      → row_hash sha256 (record r { action = a ++ b'|' ∷ b; result = c })
        ≡ row_hash sha256 (record r { action = a; result = b ++ b'|' ∷ c })
  unfolding row_hash compute_entry_hash preimage
  row_hash_separator r a b c =
      rw
        (
          as_bytes-append a (b'|' ∷ b),
          as_bytes-append b (b'|' ∷ c),
          as_bytes_pipe b,
          as_bytes_pipe c,
        )
        (simp append_assoc)

  eq_or_Collision : (x y : List ℕ) → sha256 x ≡ sha256 y → (x ≡ y) ⊎ Collision sha256
  eq_or_Collision x y h = elim (Bool-cases (x == y)) [
    | inl e ↦ inl ((list_eq.eq_iff x y).0 e)
    | inr e ↦ inr (x, y, (λ q. cc ((list_eq.eq_iff x y).1 q)), h)
  ]

  -- The digest is made of bytes.
  module _ (digest_bytes : (x : List ℕ) → All (λ b. b < 256) (sha256 x)) where
    -- Rows whose hashes agree, each after a known previous hash, say the same.
    rows_agree :
        (a b : Text) (r s : ChainRow)
        → NoPipe (as_bytes a)
        → NoPipe (as_bytes b)
        → or_empty r.prev_hash ≡ a
        → or_empty s.prev_hash ≡ b
        → row_hash sha256 r ≡ row_hash sha256 s
        → ((as_bytes a ≡ as_bytes b) × (body r ≡ body s)) ⊎ Collision sha256
    rows_agree a b r s na nb p q h =
        let digests = to_hex-injective _ _ (sym (row_hash_lem r) ∙ h ∙ row_hash_lem s) in
        elim (eq_or_Collision _ _ digests) [
          | inl e ↦ inl (split_pipe (as_bytes a) (as_bytes b) (body r) (body s) na nb (cc))
          | inr c ↦ inr c
        ]

    hex_text : (x : List ℕ) → as_bytes (to_hex (sha256 x)) ≡ to_hex (sha256 x)
    hex_text x = as_bytes_ascii _ (to_hex-IsAscii (sha256 x) (digest_bytes x))

    hex-NoPipe : (x : List ℕ) → NoPipe (as_bytes (to_hex (sha256 x)))
    hex-NoPipe x = rw (hex_text x) (to_hex-NoPipe (sha256 x) (digest_bytes x))

    verify_from_binds :
        (x y : List ℕ) (rows rows' : List ChainRow) (last : Option Text)
        → verify_from sha256 (some (to_hex (sha256 x))) rows ≡ ok last
        → verify_from sha256 (some (to_hex (sha256 y))) rows' ≡ ok last
        → length rows ≡ length rows'
        → ((to_hex (sha256 x) ≡ to_hex (sha256 y)) × (bodies rows ≡ bodies rows'))
          ⊎ Collision sha256
    unfolding verify_from
    verify_from_binds x y [] [] last h k n = inl (cc, refl)
    verify_from_binds x y [] (s ∷ rows') last h k n = absurd (omega arith)
    verify_from_binds x y (r ∷ rows) [] last h k n = absurd (omega arith)
    verify_from_binds x y (r ∷ rows) (s ∷ rows') last h k n =
        let (p, _, rest) = verify_cons _ r rows last h in
        let (q, _, rest') = verify_cons _ s rows' last k in
        let (i, e) = row_hash_shape r in
        let (j, f) = row_hash_shape s in
        let ih =
          verify_from_binds i j rows rows' last (rw (← e) rest) (rw (← f) rest') (omega arith) in
        elim ih [
          | inr c ↦ inr c
          | inl (g, same) ↦
              elim (rows_agree _ _ r s (hex-NoPipe x) (hex-NoPipe y) (ap or_empty p) (ap or_empty q)
                (e ∙ g ∙ sym f)) [
                  | inr c ↦ inr c
                  | inl (t, b) ↦ inl (sym (hex_text x) ∙ t ∙ hex_text y, cc)
                ]
        ]

    -- The head hash binds the log: if two logs of one length verify to the same head, their
    -- entries say the same, byte by byte and one by one, or a collision of the digest is at hand.
    pub verify_binds :
        (rows rows' : List ChainRow) (last : Option Text)
        → verify sha256 rows ≡ ok last
        → verify sha256 rows' ≡ ok last
        → length rows ≡ length rows'
        → (bodies rows ≡ bodies rows') ⊎ Collision sha256
    unfolding verify verify_from
    verify_binds [] [] last h k n = inl refl
    verify_binds [] (s ∷ rows') last h k n = absurd (omega arith)
    verify_binds (r ∷ rows) [] last h k n = absurd (omega arith)
    verify_binds (r ∷ rows) (s ∷ rows') last h k n =
        let (p, _, rest) = verify_cons none r rows last h in
        let (q, _, rest') = verify_cons none s rows' last k in
        let (i, e) = row_hash_shape r in
        let (j, f) = row_hash_shape s in
        let ih =
          verify_from_binds i j rows rows' last (rw (← e) rest) (rw (← f) rest') (omega arith) in
        elim ih [
          | inr c ↦ inr c
          | inl (g, same) ↦
              elim (rows_agree [] [] r s empty-NoPipe empty-NoPipe (ap or_empty p) (ap or_empty q)
                (e ∙ g ∙ sym f)) [ inr c ↦ inr c | inl (t, b) ↦ inl (cc) ]
        ]

  -- The separator is not escaped: a `|` may move its field's end. Two rows that part action and
  -- result at different separators have one hash, and `verify` cannot tell one from the other.
  pub verify_separator :
      (head : Option Text) (r : ChainRow) (rows : List ChainRow) (a b c : Text)
      → verify_from sha256 head (record r { action = a ++ b'|' ∷ b; result = c } ∷ rows)
        ≡ verify_from sha256 head (record r { action = a; result = b ++ b'|' ∷ c } ∷ rows)
  unfolding verify_from
  verify_separator head r rows a b c = rw (row_hash_separator r a b c)
