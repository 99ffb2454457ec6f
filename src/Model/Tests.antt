-- ===== src/Model/Tests.antt =====
-- `bounded_text` at a concrete text.
use bengal_market.Base.{codes, length, refl, true, ◌≡◌}
use bengal_market.Model.{assign, blank, view}
use bengal_market.Model.Text.{assign_lem}

assign_lem_example :
    ((assign 4 (blank 4) (codes "BTC")).0 ≡ true)
    × (view (assign 4 (blank 4) (codes "BTC")).1 ≡ codes "BTC")
    × (length (assign 4 (blank 4) (codes "BTC")).1.chars ≡ 4)
assign_lem_example = assign_lem 4 (blank 4) (codes "BTC") refl
