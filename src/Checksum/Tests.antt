-- ===== src/Checksum/Tests.antt =====
-- Tests: the checksum of two trades, and FNV-1a of one letter.
use bengal_market.Base.{[], codes, refl, ◌∷◌, ◌≡◌}
use bengal_market.Base.Int.{negsuc, pos}
use bengal_market.Checksum.{checksum_from, fnv_offset, hash_bytes}
use bengal_market.Checksum.Encode.{checksum_from-flat, flat}
use bengal_market.Model.{Trade, buy, sell}

abbrev bought : Trade
bought = record {
  trade_id = codes "1";
  product_id = codes "BTC-USD";
  price = pos 150000000;
  size = pos 25000000;
  side = buy;
  source_time_ns = 1700000000000000000;
  enqueued_ns = 0;
}

abbrev sold : Trade
sold = record bought { trade_id = codes "2"; price = negsuc 4; side = sell }

letter_a : hash_bytes fnv_offset (codes "a") ≡ 12638187200555641996
unfolding hash_bytes
letter_a = refl

checksum_from-flat_example :
    checksum_from fnv_offset (bought ∷ sold ∷ [])
    ≡ hash_bytes fnv_offset (flat (bought ∷ sold ∷ []))
checksum_from-flat_example = checksum_from-flat fnv_offset (bought ∷ sold ∷ [])
