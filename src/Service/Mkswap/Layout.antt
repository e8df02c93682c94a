-- ===== src/Service/Mkswap/Layout.antt =====
-- What mkswap of src/service/src/swaphandler.c leaves where the kernel looks for it.
use dynaswap.Base.{
  ℕ, zero, suc, ◌+◌, ◌-◌, ◌*◌, ◌/◌, ◌%◌, ◌^◌, ◌≤◌, ◌<◌, ◌≡◌, refl, sym, ap, ap₂, ◌∙◌, true, List,
  [], ◌∷◌, some, arith, length, if◌then◌else◌, ◌==◌,
}
use dynaswap.Service.Mkswap.{
  File, write, lseek, htole32, zeros, write_header, mkswap, mkswap_get_last_page, swap_signature,
}

-- The `n` bytes from an offset on.
abbrev pub read : ℕ → ℕ → (ℕ → ℕ) → List ℕ
read zero o b = []
read (suc n) o b = b o ∷ read n (suc o) b

-- A 32 bit number, its lowest byte first.
abbrev pub le32toh : List ℕ → ℕ
le32toh [] = 0
le32toh (b ∷ bs) = b + 256 * le32toh bs

pub write-offset : (bs : List ℕ) (f : File) → (write bs f).offset ≡ f.offset + length bs
unfolding write
write-offset [] f = omega arith
write-offset (b ∷ bs) f = omega (
  arith,
  write-offset bs
      (record { offset = suc f.offset; bytes = λ i. if i == f.offset then b else f.bytes i }),
)

-- Bytes below the offset stay.
write-below : (bs : List ℕ) (f : File) (i : ℕ) → i < f.offset → (write bs f).bytes i ≡ f.bytes i
unfolding write
write-below [] f i h = refl
write-below (b ∷ bs) f i h =
    write-below bs
      (record { offset = suc f.offset; bytes = λ j. if j == f.offset then b else f.bytes j }) i
      (omega arith)
    ∙ ground arith

read-write_below :
    (n o : ℕ) (bs : List ℕ) (f : File)
    → o + n ≤ f.offset
    → read n o (write bs f).bytes ≡ read n o f.bytes
read-write_below zero o bs f h = refl
read-write_below (suc n) o bs f h =
    ap₂ (λ b bs'. b ∷ bs') (write-below bs f o (omega arith))
      (read-write_below n (suc o) bs f (omega arith))

read-write : (bs : List ℕ) (f : File) → read (length bs) f.offset (write bs f).bytes ≡ bs
unfolding write
read-write [] f = refl
read-write (b ∷ bs) f =
    let next : File = record {
      offset = suc f.offset;
      bytes = λ i. if i == f.offset then b else f.bytes i;
    } in
    ap₂ (λ c cs. c ∷ cs) (write-below bs next f.offset (omega arith) ∙ ground arith)
      (read-write bs next)

-- The value of the bytes of a 32 bit number.
le32toh-htole32 : (n : ℕ) → n < 2 ^ 32 → le32toh (htole32 n) ≡ n
le32toh-htole32 n h = omega arith

length-zeros : (n : ℕ) → length (zeros n) ≡ n
unfolding zeros
length-zeros zero = refl
length-zeros (suc n) = omega (arith, length-zeros n)

-- What a write leaves at its offset, and the offset after it.
written :
    (n o : ℕ) (bs : List ℕ) (f : File)
    → f.offset ≡ o
    → length bs ≡ n
    → (read n o (write bs f).bytes ≡ bs) × ((write bs f).offset ≡ o + n)
written n o bs f h l = (
  ap₂ (λ m p. read m p (write bs f).bytes) (sym l) (sym h) ∙ read-write bs f,
  write-offset bs f ∙ omega arith,
)

pub write_header_lem :
    (last : ℕ) (uuid : List ℕ) (f : File)
    → f.offset ≡ 0
    → length uuid ≡ 16
    → let b = (write_header last uuid f).bytes in
      (read 4 1024 b ≡ htole32 1)
      × (read 4 1028 b ≡ htole32 last)
      × (read 4 1032 b ≡ htole32 0)
      × (read 16 1036 b ≡ uuid)
      × (read 10 4086 b ≡ swap_signature)
unfolding write_header
write_header_lem last uuid f h u =
    let f₁ = write (zeros 1024) f in
    let f₂ = write (htole32 1) f₁ in
    let f₃ = write (htole32 last) f₂ in
    let f₄ = write (htole32 0) f₃ in
    let f₅ = write uuid f₄ in
    let f₆ = write (zeros 16) f₅ in
    let f₇ = write swap_signature (lseek 4086 f₆) in
    let boot = written 1024 0 (zeros 1024) f h (length-zeros 1024) in
    let version = written 4 1024 (htole32 1) f₁ (boot.1) refl in
    let last_page = written 4 1028 (htole32 last) f₂ (version.1) refl in
    let badpages = written 4 1032 (htole32 0) f₃ (last_page.1) refl in
    let uuid_there = written 16 1036 uuid f₄ (badpages.1) u in
    let label = written 16 1052 (zeros 16) f₅ (uuid_there.1) (length-zeros 16) in
    let sig = written 10 4086 swap_signature (lseek 4086 f₆) refl refl in
    let k₆ : (n o : ℕ) → o + n ≤ 1068 → read n o f₇.bytes ≡ read n o f₆.bytes =
      λ n o b. read-write_below n o swap_signature (lseek 4086 f₆) (omega arith) in
    let k₅ : (n o : ℕ) → o + n ≤ 1052 → read n o f₇.bytes ≡ read n o f₅.bytes = λ n o b.
      k₆ n o (omega arith) ∙ read-write_below n o (zeros 16) f₅ (omega (arith, uuid_there.1)) in
    let k₄ : (n o : ℕ) → o + n ≤ 1036 → read n o f₇.bytes ≡ read n o f₄.bytes =
      λ n o b. k₅ n o (omega arith) ∙ read-write_below n o uuid f₄ (omega (arith, badpages.1)) in
    let k₃ : (n o : ℕ) → o + n ≤ 1032 → read n o f₇.bytes ≡ read n o f₃.bytes = λ n o b.
      k₄ n o (omega arith) ∙ read-write_below n o (htole32 0) f₃ (omega (arith, last_page.1)) in
    let k₂ : (n o : ℕ) → o + n ≤ 1028 → read n o f₇.bytes ≡ read n o f₂.bytes = λ n o b.
      k₃ n o (omega arith) ∙ read-write_below n o (htole32 last) f₂ (omega (arith, version.1)) in
    (
      k₂ 4 1024 (omega arith) ∙ version.0,
      k₃ 4 1028 (omega arith) ∙ last_page.0,
      k₄ 4 1032 (omega arith) ∙ badpages.0,
      k₅ 16 1036 (omega arith) ∙ uuid_there.0,
      sig.0,
    )

-- For a file of at least a page and less than 2 ^ 44 bytes, and a uuid of 16 bytes, `mkswap`
-- succeeds, and the first page holds what the kernel looks for: version 1, the number of the last
-- page that the file has, no bad pages, the uuid, and the signature at the end.
pub mkswap_lem :
    (size : ℕ) (uuid : List ℕ) (b : ℕ → ℕ)
    → 4096 ≤ size
    → size < 2 ^ 44
    → length uuid ≡ 16
    → (f : File) × (mkswap true size uuid (record { offset = 0; bytes = b }) ≡ some f)
      × (le32toh (read 4 1024 f.bytes) ≡ 1)
      × (le32toh (read 4 1028 f.bytes) + 1 ≡ size / 4096)
      × (le32toh (read 4 1032 f.bytes) ≡ 0)
      × (read 16 1036 f.bytes ≡ uuid)
      × (read 10 4086 f.bytes ≡ swap_signature)
unfolding mkswap mkswap_get_last_page
mkswap_lem size uuid b big small u =
    let last = (size / 4096 - 1) % 2 ^ 32 in
    let (version, last_page, bad, id, sig) =
      write_header_lem last uuid (record { offset = 0; bytes = b }) refl u in
    (
      write_header last uuid (record { offset = 0; bytes = b }),
      ground arith,
      ap le32toh version,
      omega (arith, ap le32toh last_page, le32toh-htole32 last (omega arith)),
      ap le32toh bad,
      id,
      sig,
    )
