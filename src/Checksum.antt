-- ===== src/Checksum.antt =====
-- src/core.cpp: `hash_bytes`, `hash_integer` and `update_checksum`, the FNV-1a hash of a trade.
pub mod Encode
mod Tests
use Prim.Native.Nat.{bit_xor}
use bengal_market.Base.{Bytes, List, [], suc, zero, ℕ, ◌%◌, ◌/◌, ◌∷◌}
use bengal_market.Base.Int.{to_uint64}
use bengal_market.Base.Words.{mul_u64}
use bengal_market.Model.{Trade, TradeSide, buy, sell}

abbrev pub fnv_offset : ℕ
fnv_offset = 14695981039346656037

abbrev pub fnv_prime : ℕ
fnv_prime = 1099511628211

abbrev pub hash_byte : ℕ → ℕ → ℕ
hash_byte hash byte = mul_u64 (bit_xor hash byte) fnv_prime

pub hash_bytes : ℕ → Bytes → ℕ
hash_bytes hash [] = hash
hash_bytes hash (byte ∷ value) = hash_bytes (hash_byte hash byte) value

-- The loop over `sizeof(bits)` bytes, by the rounds left. In an integer of one byte the shift is
-- left out; nothing reads the bits after it.
pub hash_integer : ℕ → ℕ → ℕ → ℕ
hash_integer zero hash bits = hash
hash_integer (suc left) hash bits = hash_integer left (hash_byte hash (bits % 256)) (bits / 256)

abbrev pub side_byte : TradeSide → ℕ
side_byte buy = 0
side_byte sell = 1

unfoldable pub update_checksum : ℕ → Trade → ℕ
update_checksum hash value =
    let hash1 = hash_bytes hash value.trade_id in
    let hash2 = hash_bytes hash1 value.product_id in
    let hash3 = hash_integer 8 hash2 (to_uint64 value.price) in
    let hash4 = hash_integer 8 hash3 (to_uint64 value.size) in
    let hash5 = hash_integer 1 hash4 (side_byte value.side) in
    hash_integer 8 hash5 value.source_time_ns

-- The checksum of a run of trades.
abbrev pub checksum_from : ℕ → List Trade → ℕ
checksum_from hash [] = hash
checksum_from hash (t ∷ ts) = checksum_from (update_checksum hash t) ts
