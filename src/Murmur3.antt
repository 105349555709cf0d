-- ===== src/Murmur3.antt =====
-- src/murmur3.cpp: the first half of MurmurHash3 x64 128 with seed 0. A std::uint64_t is a number
-- below 2 ^ 64, a byte one below 256; the std::int64_t that is returned is its bit pattern.
use alternator_client_cpp.Base.{
  ℕ, zero, suc, ◌+◌, ◌-◌, ◌*◌, ◌/◌, ◌%◌, ◌^◌, bit_or, bit_xor, if◌then◌else◌, leb, get_or, drop,
  length,
}
use alternator_client_cpp.Base.Bytes.{Bytes}

abbrev pub c1 : ℕ
c1 = 0x87c37b91114253d5

abbrev pub c2 : ℕ
c2 = 0x4cf5ad432745937f

abbrev pub fmix1 : ℕ
fmix1 = 0xff51afd7ed558ccd

abbrev pub fmix2 : ℕ
fmix2 = 0xc4ceb9fe1a85ec53

abbrev pub wrap64 : ℕ → ℕ
wrap64 n = n % 2 ^ 64

unfoldable pub rotl : ℕ → ℕ → ℕ
rotl x r = bit_or (wrap64 (x * 2 ^ r)) (x / 2 ^ (64 - r))

unfoldable pub fmix : ℕ → ℕ
fmix k =
    let a = wrap64 (bit_xor k (k / 2 ^ 33) * fmix1) in
    let b = wrap64 (bit_xor a (a / 2 ^ 33) * fmix2) in bit_xor b (b / 2 ^ 33)

-- The loop of ReadLittleEndian64 from the byte `i` on: data[i] << (8 * i).
read_bytes : ℕ → ℕ → Bytes → ℕ → ℕ
read_bytes zero i input out = out
read_bytes (suc n) i input out =
    read_bytes n (i + 1) input (bit_or out (wrap64 (get_or input i 0 * 2 ^ (8 * i))))

unfoldable pub read_little_endian64 : Bytes → ℕ
unfolding read_bytes
read_little_endian64 input = read_bytes 8 0 input 0

-- k *= c1; k = Rotl(k, 31); k *= c2; and the same with c2, 33 and c1.
unfoldable pub scramble1 : ℕ → ℕ
unfolding rotl
scramble1 k = wrap64 (rotl (wrap64 (k * c1)) 31 * c2)

unfoldable pub scramble2 : ℕ → ℕ
unfolding rotl
scramble2 k = wrap64 (rotl (wrap64 (k * c2)) 33 * c1)

unfoldable pub block : Bytes → ℕ × ℕ → ℕ × ℕ
unfolding scramble1 scramble2 read_little_endian64 rotl
block input (h1, h2) =
    let k1 = read_little_endian64 input in
    let k2 = read_little_endian64 (drop 8 input) in
    let h1' = wrap64 (wrap64 (rotl (bit_xor h1 (scramble1 k1)) 27 + h2) * 5 + 0x52dce729) in
    let h2' = wrap64 (wrap64 (rotl (bit_xor h2 (scramble2 k2)) 31 + h1') * 5 + 0x38495ab5) in
    (h1', h2')

-- The rounds over the 16-byte blocks: what is left of the bytes, and the halves.
unfoldable pub blocks : ℕ → Bytes → ℕ × ℕ → Bytes × (ℕ × ℕ)
unfolding block
blocks zero input h = (input, h)
blocks (suc n) input h = blocks n (drop 16 input) (block input h)

-- The cases of the switch that shift a byte of the tail into k1 or k2: bytes n - 1 down to 0.
unfoldable pub tail_word : ℕ → Bytes → ℕ → ℕ
tail_word zero tail k = k
tail_word (suc i) tail k = tail_word i tail (bit_xor k (wrap64 (get_or tail i 0 * 2 ^ (8 * i))))

-- switch (length & 15U)
unfoldable pub mix_tail : ℕ → Bytes → ℕ × ℕ → ℕ × ℕ
unfolding tail_word scramble1 scramble2
mix_tail n tail (h1, h2) = (
  (if leb 1 n then bit_xor h1 (scramble1 (tail_word (if leb 8 n then 8 else n) tail 0)) else h1),
  (if leb 9 n then bit_xor h2 (scramble2 (tail_word (n - 8) (drop 8 tail) 0)) else h2),
)

unfoldable pub finish : ℕ → ℕ × ℕ → ℕ
unfolding fmix
finish len (h1, h2) =
    let a = wrap64 (bit_xor h1 len + bit_xor h2 len) in
    let b = wrap64 (bit_xor h2 len + a) in wrap64 (fmix a + fmix b)

-- Murmur3H1
unfoldable pub murmur3_h1 : Bytes → ℕ
unfolding blocks mix_tail finish
murmur3_h1 input =
    let len = length input in
    let (tail, h) = blocks (len / 16) input (0, 0) in finish len (mix_tail (len % 16) tail h)
