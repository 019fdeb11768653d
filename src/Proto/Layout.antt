-- ===== src/Proto/Layout.antt =====
-- What binrw derives for the wire structs of proto/messages/: the fields in order, little-endian
-- integers, byte arrays, and sequences whose count an earlier field gives.
use rust_smb_server.Prelude.{
  ℕ, zero, suc, ◌^◌, ◌<◌, ◌≡◌, refl, ap, List, [], ◌∷◌, ◌++◌, length, append_assoc, All,
}
use rust_smb_server.Proto.Error.{ProtoResult, ok, ◌>>=◌}
use rust_smb_server.Proto.Wire.{Binrw, read_bytes, read_bytes-append, read-write}

-- The layout of a type: the count of a sequence may come from what stands before it.
pub data Layout : Type 0 → Type 1 where
  uint : ℕ → Layout ℕ
  array : ℕ → Layout (List ℕ)
  many : {A : Type 0} → ℕ → Layout A → Layout (List A)
  follow : {A B : Type 0} → Layout A → (A → Layout B) → Layout (A × B)
  fields :
      {A R : Type 0} (to : A → R) (of : R → A) → ((r : R) → to (of r) ≡ r) → Layout A → Layout R

-- The `count` of a buffer that is never empty on the wire.
abbrev pub or_one : ℕ → ℕ
or_one zero = 1
or_one (suc n) = suc n

-- Every integer has the width of its field, and every sequence the length of its count.
abbrev pub Fits : {A : Type 0} → Layout A → A → Type 0
Fits (uint w) v = v < 256 ^ w
Fits (array n) bs = length bs ≡ n
Fits (many n l) xs = (length xs ≡ n) × All (Fits l) xs
Fits (follow l k) (a, b) = Fits l a × Fits (k a) b
Fits (fields to of e l) r = Fits l (of r)

module _ ⦃b : Binrw⦄ where
  -- `n` values, each read by `next`.
  abbrev pub read_many :
      {A : Type 0}
      → (List ℕ → ProtoResult (A × List ℕ))
      → ℕ
      → List ℕ
      → ProtoResult (List A × List ℕ)
  read_many next zero bs = ok ([], bs)
  read_many next (suc n) bs =
      next bs >>= λ (a, rest). read_many next n rest >>= λ (xs, rest'). ok (a ∷ xs, rest')

  abbrev pub write_many : {A : Type 0} → (A → List ℕ) → List A → List ℕ
  write_many next [] = []
  write_many next (a ∷ xs) = next a ++ write_many next xs

  -- `BinRead::read`
  abbrev pub read : {A : Type 0} → Layout A → List ℕ → ProtoResult (A × List ℕ)
  read (uint w) bs = b.read w bs
  read (array n) bs = read_bytes n bs
  read (many n l) bs = read_many (read l) n bs
  read (follow l k) bs =
      read l bs >>= λ (a, rest). read (k a) rest >>= λ (c, rest'). ok ((a, c), rest')
  read (fields to of e l) bs = read l bs >>= λ (a, rest). ok (to a, rest)

  -- `BinWrite::write`
  abbrev pub write : {A : Type 0} → Layout A → A → List ℕ
  write (uint w) v = b.write w v
  write (array n) bs = bs
  write (many n l) xs = write_many (write l) xs
  write (follow l k) (a, c) = write l a ++ write (k a) c
  write (fields to of e l) r = write l (of r)

  read_many-write_many :
      {A : Type 0} (l : Layout A) (xs : List A) (rest : List ℕ)
      → ((a : A) (rest : List ℕ) → Fits l a → read l (write l a ++ rest) ≡ ok (a, rest))
      → All (Fits l) xs
      → read_many (read l) (length xs) (write_many (write l) xs ++ rest) ≡ ok (xs, rest)
  read_many-write_many l [] rest one f = refl
  read_many-write_many l (a ∷ xs) rest one (f, fs) =
      rw
        (
          append_assoc (write l a) (write_many (write l) xs) rest,
          one a (write_many (write l) xs ++ rest) f,
          read_many-write_many l xs rest one fs,
        )
        refl

  -- What was written is read back, whatever follows it.
  pub layout-read-write :
      {A : Type 0} (l : Layout A) (a : A) (rest : List ℕ)
      → Fits l a
      → read l (write l a ++ rest) ≡ ok (a, rest)
  layout-read-write (uint w) v rest f = read-write w v rest f
  layout-read-write (array n) bs rest f = read_bytes-append n bs rest f
  layout-read-write (many n l) xs rest (len, fs) =
      rw len at (read_many-write_many l xs rest (layout-read-write l) fs)
  layout-read-write (follow l k) (a, c) rest (f, g) =
      rw
        (
          append_assoc (write l a) (write (k a) c) rest,
          layout-read-write l a (write (k a) c ++ rest) f,
          layout-read-write (k a) c rest g,
        )
        refl
  layout-read-write (fields to of e l) r rest f =
      rw (layout-read-write l (of r) rest f) (ap (λ x. ok (x, rest)) (e r))

  -- `parse` of a message: what stands behind it is not looked at. `write_to` is `write`.
  abbrev pub parse : {A : Type 0} → Layout A → List ℕ → ProtoResult A
  parse l buf = read l buf >>= λ (a, _). ok a

  -- Every message that is written by the layout of its wire struct is parsed back, whatever
  -- bytes follow it, where each integer has the width of its field and each sequence the
  -- length of its count.
  pub parse_message-write :
      {A : Type 0} (l : Layout A) (a : A) (rest : List ℕ)
      → Fits l a
      → parse l (write l a ++ rest) ≡ ok a
  parse_message-write l a rest f = rw (layout-read-write l a rest f) refl
