-- ===== src/Service/Mkswap.antt =====
-- mkswap of src/service/src/swaphandler.c: the header that makes a file a swap area.
-- A file is its bytes by their offset, with the offset that the next write starts at. Writes are
-- complete: the code does not look at what they return.
pub mod Layout
use dynaswap.Base.{
  ℕ, zero, suc, ◌+◌, ◌-◌, ◌/◌, ◌%◌, ◌^◌, Bool, true, false, not, List, [], ◌∷◌, Option, none, some,
  if◌then◌else◌, ◌==◌, ltb,
}

pub record File : Type 0 where
  pub offset : ℕ
  pub bytes : ℕ → ℕ

abbrev pub swap_page_size : ℕ
swap_page_size = 4096

abbrev pub swap_version : ℕ
swap_version = 1

-- "SWAPSPACE2"
abbrev pub swap_signature : List ℕ
swap_signature = 83 ∷ 87 ∷ 65 ∷ 80 ∷ 83 ∷ 80 ∷ 65 ∷ 67 ∷ 69 ∷ 50 ∷ []

abbrev pub swap_signature_offset : ℕ
swap_signature_offset = 4096 - 10

unfoldable pub write : List ℕ → File → File
write [] f = f
write (b ∷ bs) f =
    write bs (record { offset = suc f.offset; bytes = λ i. if i == f.offset then b else f.bytes i })

abbrev pub lseek : ℕ → File → File
lseek o f = record f { offset = o }

-- The bytes of a 32 bit number, the lowest first.
abbrev pub htole32 : ℕ → List ℕ
htole32 n = n % 256 ∷ n / 256 % 256 ∷ n / 65536 % 256 ∷ n / 16777216 % 256 ∷ []

unfoldable pub zeros : ℕ → List ℕ
zeros zero = []
zeros (suc n) = 0 ∷ zeros n

-- `fstat` tells whether the call succeeds, `swap_size` is the size that it gives. `none`: the
-- program exits.
unfoldable pub mkswap_get_last_page : Bool → ℕ → Option ℕ
mkswap_get_last_page fstat swap_size =
    if not fstat
    then none
    else (if ltb swap_size swap_page_size
        then none
        else some ((swap_size / swap_page_size - 1) % 2 ^ 32))

-- The writes, with what `uuid_generate` gave; `volume_name` is zero.
unfoldable pub write_header : ℕ → List ℕ → File → File
write_header last_page uuid f =
    let f₁ = write (zeros 1024) f in
    let f₂ = write (htole32 swap_version) f₁ in
    let f₃ = write (htole32 last_page) f₂ in
    let f₄ = write (htole32 0) f₃ in
    let f₅ = write uuid f₄ in
    let f₆ = write (zeros 16) f₅ in write swap_signature (lseek swap_signature_offset f₆)

unfoldable pub mkswap : Bool → ℕ → List ℕ → File → Option File
mkswap fstat swap_size uuid f = elim (mkswap_get_last_page fstat swap_size) [
  | none ↦ none
  | some last_page ↦ some (write_header last_page uuid f)
]
