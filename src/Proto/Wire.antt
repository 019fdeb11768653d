-- ===== src/Proto/Wire.antt =====
-- The binrw crate, which is not part of the repository: reading and writing a little-endian
-- unsigned integer of `w` bytes at the front of a buffer. What the wire structs rely on is its
-- documented behaviour, and nothing else.
use rust_smb_server.Prelude.{
  ℕ, ◌≤◌, ◌<◌, ◌^◌, ◌≡◌, refl, List, [], ◌++◌, length, take, drop, arith, ltb, if◌then◌else◌,
  not_ltb, lt→ltb, length-append, take-append, drop-append, append-nil, length-take, length-drop,
  take-append-drop, All-take, All-drop, ◌-◌,
}
use rust_smb_server.Prelude.Bytes.{
  IsBytes, le_bytes, from_le_bytes, length-le_bytes, from_le_bytes-le_bytes, from_le_bytes-lt,
  le_bytes-from_le_bytes,
}
use rust_smb_server.Proto.Error.{ProtoResult, ok, err, binrw}

pub record Binrw : Type 0 where
  pub read : ℕ → List ℕ → ProtoResult (ℕ × List ℕ)
  pub write : ℕ → ℕ → List ℕ
  -- `#[brw(little)]` writes the bytes of `to_le_bytes`.
  pub write_little : (w v : ℕ) → write w v ≡ le_bytes w v
  -- It reads `w` bytes as `from_le_bytes` does, and moves past them.
  pub read_little :
      (w : ℕ) (bs rest : List ℕ) → length bs ≡ w → read w (bs ++ rest) ≡ ok (from_le_bytes bs, rest)
  -- At the end of the input it fails.
  pub read_short : (w : ℕ) (bs : List ℕ) → length bs < w → read w bs ≡ err binrw

-- `[u8; n]` fields are the next `n` bytes.
unfoldable pub read_bytes : ℕ → List ℕ → ProtoResult (List ℕ × List ℕ)
read_bytes n bs = if ltb (length bs) n then err binrw else ok (take n bs, drop n bs)

pub read_bytes-append :
    (n : ℕ) (bs rest : List ℕ) → length bs ≡ n → read_bytes n (bs ++ rest) ≡ ok (bs, rest)
unfolding read_bytes
read_bytes-append n bs rest h = rw (
  not_ltb (length (bs ++ rest)) n (omega (arith, length-append bs rest)),
  take-append bs rest n h,
  drop-append bs rest n h,
)

pub read_bytes_all : (n : ℕ) (bs : List ℕ) → length bs ≡ n → read_bytes n bs ≡ ok (bs, [])
read_bytes_all n bs h = rw append-nil at (read_bytes-append n bs [] h)

-- Where `n` bytes are left, they are read, and they stand in front of the rest.
pub read_bytes_back :
    (n : ℕ) (bs : List ℕ)
    → IsBytes bs
    → n ≤ length bs
    → (x rest : List ℕ) × (read_bytes n bs ≡ ok (x, rest))
      × (length x ≡ n)
      × (x ++ rest ≡ bs)
      × (length rest ≡ length bs - n)
      × IsBytes rest
      × IsBytes x
unfolding read_bytes
read_bytes_back n bs bytes h = (
  take n bs,
  drop n bs,
  rw (not_ltb (length bs) n h),
  length-take n bs h,
  take-append-drop n bs,
  length-drop n bs,
  All-drop _ n bs bytes,
  All-take _ n bs bytes,
)

module _ ⦃b : Binrw⦄ where
  -- What was written is read back.
  pub read-write :
      (w v : ℕ) (rest : List ℕ) → v < 256 ^ w → b.read w (b.write w v ++ rest) ≡ ok (v, rest)
  read-write w v rest h = rw (
    b.write_little w v,
    b.read_little w (le_bytes w v) rest (length-le_bytes w v),
    from_le_bytes-le_bytes w v h,
  )

  pub length-write : (w v : ℕ) → length (b.write w v) ≡ w
  length-write w v = rw (b.write_little w v) (length-le_bytes w v)

  -- Where `w` bytes are left, an integer is read that is written as those bytes.
  pub read_back :
      (w : ℕ) (bs : List ℕ)
      → IsBytes bs
      → w ≤ length bs
      → (v : ℕ) × (rest : List ℕ) × (b.read w bs ≡ ok (v, rest))
        × (v < 256 ^ w)
        × (b.write w v ++ rest ≡ bs)
        × (length rest ≡ length bs - w)
        × IsBytes rest
  read_back w bs bytes h =
      let front : length (take w bs) ≡ w = length-take w bs h in
      let front_bytes : IsBytes (take w bs) = All-take _ w bs bytes in
      (
        from_le_bytes (take w bs),
        drop w bs,
        rw take-append-drop at (b.read_little w (take w bs) (drop w bs) front),
        rw front at (from_le_bytes-lt (take w bs) front_bytes),
        rw (b.write_little w _, rw front at (le_bytes-from_le_bytes (take w bs) front_bytes))
            (take-append-drop w bs),
        length-drop w bs,
        All-drop _ w bs bytes,
      )

  -- The same, for a proof that goes on with what was read.
  pub read_then {ℓ} :
      {G : Type ℓ} (w : ℕ) (bs : List ℕ)
      → IsBytes bs
      → w ≤ length bs
      → ((v : ℕ) (rest : List ℕ)
          → b.read w bs ≡ ok (v, rest)
          → v < 256 ^ w
          → b.write w v ++ rest ≡ bs
          → length rest ≡ length bs - w
          → IsBytes rest
          → G)
      → G
  read_then w bs bytes h k =
      let (v, rest, e, l, back, n, r) = read_back w bs bytes h in k v rest e l back n r

pub read_bytes_then {ℓ} :
    {G : Type ℓ} (n : ℕ) (bs : List ℕ)
    → IsBytes bs
    → n ≤ length bs
    → ((x rest : List ℕ)
        → read_bytes n bs ≡ ok (x, rest)
        → length x ≡ n
        → x ++ rest ≡ bs
        → length rest ≡ length bs - n
        → IsBytes rest
        → IsBytes x
        → G)
    → G
read_bytes_then n bs bytes h k =
    let (x, rest, e, l, back, m, r, s) = read_bytes_back n bs bytes h in k x rest e l back m r s

-- A reader that behaves as documented.
unfoldable pub little_read : ℕ → List ℕ → ProtoResult (ℕ × List ℕ)
little_read w bs =
    if ltb (length bs) w then err binrw else ok (from_le_bytes (take w bs), drop w bs)

little_read-append :
    (w : ℕ) (bs rest : List ℕ)
    → length bs ≡ w
    → little_read w (bs ++ rest) ≡ ok (from_le_bytes bs, rest)
unfolding little_read
little_read-append w bs rest h = rw (
  not_ltb (length (bs ++ rest)) w (omega (arith, length-append bs rest)),
  take-append bs rest w h,
  drop-append bs rest w h,
)

little_read_short : (w : ℕ) (bs : List ℕ) → length bs < w → little_read w bs ≡ err binrw
unfolding little_read
little_read_short w bs h = rw (lt→ltb (length bs) w h)

unfoldable pub little_endian : Binrw
unfolding little_read little_read-append little_read_short
little_endian = record {
  read = little_read;
  write = le_bytes;
  write_little = λ w v. refl;
  read_little = little_read-append;
  read_short = little_read_short;
}
