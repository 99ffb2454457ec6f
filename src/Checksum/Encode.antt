-- ===== src/Checksum/Encode.antt =====
-- src/core.cpp `update_checksum` is FNV-1a over one byte string, the fields of the trade in order,
-- the integers with the lowest byte first.
use bengal_market.Base.{Bytes, List, [], ap, refl, suc, sym, zero, ℕ, ◌%◌, ◌++◌, ◌/◌, ◌∙◌, ◌∷◌, ◌≡◌}
use bengal_market.Base.Int.{to_uint64}
use bengal_market.Checksum.{
  checksum_from, hash_byte, hash_bytes, hash_integer, side_byte, update_checksum,
}
use bengal_market.Model.{Trade}

pub le_bytes : ℕ → ℕ → Bytes
le_bytes zero n = []
le_bytes (suc k) n = (n % 256) ∷ le_bytes k (n / 256)

abbrev pub encode : Trade → Bytes
encode t =
    t.trade_id
    ++ (t.product_id
        ++ (le_bytes 8 (to_uint64 t.price)
            ++ (le_bytes 8 (to_uint64 t.size)
                ++ (le_bytes 1 (side_byte t.side) ++ le_bytes 8 t.source_time_ns))))

hash_bytes-append : (h : ℕ) (a b : Bytes) → hash_bytes h (a ++ b) ≡ hash_bytes (hash_bytes h a) b
unfolding hash_bytes
hash_bytes-append h [] b = refl
hash_bytes-append h (x ∷ a) b = hash_bytes-append (hash_byte h x) a b

hash_integer-hash_bytes : (k h n : ℕ) → hash_integer k h n ≡ hash_bytes h (le_bytes k n)
unfolding hash_integer hash_bytes le_bytes
hash_integer-hash_bytes zero h n = refl
hash_integer-hash_bytes (suc k) h n = hash_integer-hash_bytes k (hash_byte h (n % 256)) (n / 256)

abbrev pub flat : List Trade → Bytes
flat [] = []
flat (t ∷ ts) = encode t ++ flat ts

update_checksum-encode : (h : ℕ) (t : Trade) → update_checksum h t ≡ hash_bytes h (encode t)
unfolding update_checksum
update_checksum-encode h t = simp (hash_integer-hash_bytes, hash_bytes-append)

-- The checksum of a run of trades is FNV-1a over the bytes of the trades, one after the other.
pub checksum_from-flat : (h : ℕ) (ts : List Trade) → checksum_from h ts ≡ hash_bytes h (flat ts)
checksum_from-flat h [] = unfold hash_bytes in refl
checksum_from-flat h (t ∷ ts) =
    checksum_from-flat (update_checksum h t) ts
    ∙ ap (λ g. hash_bytes g (flat ts)) (update_checksum-encode h t)
    ∙ sym (hash_bytes-append h (encode t) (flat ts))
