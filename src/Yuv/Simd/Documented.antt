-- ===== src/Yuv/Simd/Documented.antt =====
-- What the compiler's documentation says of the intrinsics.
use glgrab.Base.{
  ℕ, ◌+◌, ◌-◌, ◌*◌, ◌/◌, ◌%◌, ◌^◌, ◌<◌, ◌≡◌, min, some, List, get_elem?, ltb, leb, ◌&&◌,
  if◌then◌else◌,
}
use Prim.Native.Nat.{bit_xor}
use glgrab.Yuv.Simd.{Vector, Intrinsics}

-- The word number `i`, below 8.
unfoldable pub word : Vector → ℕ → ℕ
word x i = x (i * 2) + 256 * x (i * 2 + 1)

-- A signed byte is `gain` less `loss`, one of which is 0.
unfoldable pub gain : ℕ → ℕ
gain b = if ltb b 128 then b else 0

unfoldable pub loss : ℕ → ℕ
loss b = if ltb b 128 then 0 else 256 - b

-- The word that stands for `p` less `n`, saturated.
unfoldable pub signed_word : ℕ → ℕ → ℕ
signed_word p n = if leb n p then min (p - n) 32767 else 2 ^ 16 - min (n - p) 32768

-- A signed word saturated to a byte.
unfoldable pub saturated : ℕ → ℕ
saturated w = if ltb w 32768 then min w 255 else 0

-- The memory after a store of 16 bytes.
unfoldable pub stored : (ℕ → ℕ) → ℕ → Vector → ℕ → ℕ
stored memory a x j = if leb a j && ltb j (a + 16) then x (j - a) else memory j

-- Of the interleaving intrinsics, `i` is a byte of a lane of 4 or of 8; of the others, a byte or a
-- word of the vector.
pub record AreDocumented (mm : Intrinsics) : Type 0 where
  pub set_epi8_lem :
      (l : List ℕ) (i n : ℕ)
      → i < 16
      → n < 256
      → get_elem? l (15 - i) ≡ some n
      → mm.set_epi8 l i ≡ n
  pub set1_epi8_lem : (n i : ℕ) → n < 256 → i < 16 → mm.set1_epi8 n i ≡ n
  pub set1_epi16_lem : (n i : ℕ) → n < 2 ^ 16 → i < 8 → word (mm.set1_epi16 n) i ≡ n
  pub avg_epu8_lem :
      (x y : Vector) (i : ℕ)
      → i < 16
      → x i < 256
      → y i < 256
      → mm.avg_epu8 x y i ≡ (x i + y i + 1) / 2
  pub xor_si128_lem : (x y : Vector) (i : ℕ) → i < 16 → mm.xor_si128 x y i ≡ bit_xor (x i) (y i)
  pub unpacklo_epi32_lem :
      (x y : Vector) (i : ℕ)
      → i < 4
      → (mm.unpacklo_epi32 x y i ≡ x i)
        × (mm.unpacklo_epi32 x y (4 + i) ≡ y i)
        × (mm.unpacklo_epi32 x y (8 + i) ≡ x (4 + i))
        × (mm.unpacklo_epi32 x y (12 + i) ≡ y (4 + i))
  pub unpackhi_epi32_lem :
      (x y : Vector) (i : ℕ)
      → i < 4
      → (mm.unpackhi_epi32 x y i ≡ x (8 + i))
        × (mm.unpackhi_epi32 x y (4 + i) ≡ y (8 + i))
        × (mm.unpackhi_epi32 x y (8 + i) ≡ x (12 + i))
        × (mm.unpackhi_epi32 x y (12 + i) ≡ y (12 + i))
  pub unpacklo_epi64_lem :
      (x y : Vector) (i : ℕ)
      → i < 8
      → (mm.unpacklo_epi64 x y i ≡ x i) × (mm.unpacklo_epi64 x y (8 + i) ≡ y i)
  pub unpackhi_epi64_lem :
      (x y : Vector) (i : ℕ)
      → i < 8
      → (mm.unpackhi_epi64 x y i ≡ x (8 + i)) × (mm.unpackhi_epi64 x y (8 + i) ≡ y (8 + i))
  pub maddubs_epi16_lem :
      (x k : Vector) (i : ℕ)
      → i < 8
      → word (mm.maddubs_epi16 x k) i
        ≡ signed_word
            (x (i * 2) * gain (k (i * 2)) + x (i * 2 + 1) * gain (k (i * 2 + 1)))
            (x (i * 2) * loss (k (i * 2)) + x (i * 2 + 1) * loss (k (i * 2 + 1)))
  pub hadd_epi16_lem :
      (x y : Vector) (i : ℕ)
      → i < 4
      → (word (mm.hadd_epi16 x y) i ≡ (word x (i * 2) + word x (i * 2 + 1)) % 2 ^ 16)
        × (word (mm.hadd_epi16 x y) (4 + i) ≡ (word y (i * 2) + word y (i * 2 + 1)) % 2 ^ 16)
  pub add_epi16_lem :
      (x y : Vector) (i : ℕ) → i < 8 → word (mm.add_epi16 x y) i ≡ (word x i + word y i) % 2 ^ 16
  pub srli_epi16_lem :
      (x : Vector) (s i : ℕ) → s < 16 → i < 8 → word (mm.srli_epi16 x s) i ≡ word x i / 2 ^ s
  pub packus_epi16_lem :
      (x y : Vector) (i : ℕ)
      → i < 8
      → (mm.packus_epi16 x y i ≡ saturated (word x i))
        × (mm.packus_epi16 x y (8 + i) ≡ saturated (word y i))
  pub load_si128_lem :
      (memory : ℕ → ℕ) (a i : ℕ) → a % 16 ≡ 0 → i < 16 → mm.load_si128 memory a i ≡ memory (a + i)
  pub stream_load_si128_lem :
      (memory : ℕ → ℕ) (a i : ℕ)
      → a % 16 ≡ 0
      → i < 16
      → mm.stream_load_si128 memory a i ≡ memory (a + i)
  pub stream_si128_lem :
      (memory : ℕ → ℕ) (a : ℕ) (x : Vector) (j : ℕ)
      → a % 16 ≡ 0
      → mm.stream_si128 memory a x j ≡ stored memory a x j
