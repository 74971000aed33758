-- ===== src/Arbitrage/Api/Laws.antt =====
-- After a synchronisation the store has the rates that the network answered last.
use zlttbots.Prelude.{
  ◌≡◌, refl, ◌∙◌, String, pair_eq, Option, some, List, [], ◌∷◌, Outcome, ok, raised, if◌then◌else◌,
  Bool-cases, inl, inr, str_eq, ◌&&◌, ap,
}
use zlttbots.Prelude.Dict.{lookup-insert}
use zlttbots.Arbitrage.Market.{
  Numbers, MarketStore, ProductPayoutRecord, upsert_product_payout, get_product_payout,
}
use zlttbots.Arbitrage.Api.{
  AffiliateNetwork, network_value, ProductCommission, ConnectorSnapshot, payout_record, upsert_all,
  sync_affiliate, store_snapshot,
}

module _ {nu : Numbers} where
  -- the rate of a product in a list of commissions, by its last entry, or a known one
  unfoldable pub last_rate :
      String → String → List (ProductCommission nu) → Option nu.Float → Option nu.Float
  last_rate network product [] known = known
  last_rate network product (c ∷ cs) known = last_rate network product cs (
      if str_eq (network_value c.network) network && str_eq c.product_id product
      then some c.payout_rate
      else known)

  upsert-payout :
      (r : ProductPayoutRecord nu) (network product : String) (s : MarketStore nu)
      → get_product_payout network product (upsert_product_payout r s) ≡ (
          if str_eq r.network network && str_eq r.product_id product
          then some r.payout_rate
          else get_product_payout network product s)
  unfolding get_product_payout upsert_product_payout
  upsert-payout r network product s =
      let found = lookup-insert (r.network, r.product_id) (network, product) r s.product_payouts in
      elim (Bool-cases (str_eq r.network network && str_eq r.product_id product)) [
        | inl e ↦ rw (found, get_product_payout) (rw e refl)
        | inr e ↦ rw (found, get_product_payout) (rw e refl)
      ]

  upsert_all-payout :
      (cs : List (ProductCommission nu)) (network product : String) (s : MarketStore nu)
      → get_product_payout network product (upsert_all cs s)
        ≡ last_rate network product cs (get_product_payout network product s)
  unfolding upsert_all last_rate
  upsert_all-payout [] network product s = refl
  upsert_all-payout (c ∷ cs) network product s =
      upsert_all-payout cs network product (upsert_product_payout (payout_record c) s)
      ∙ ap (last_rate network product cs) (upsert-payout (payout_record c) network product s)

  -- the rate of a product after a call that fetches commissions
  unfoldable pub rate_after :
      String → String → Outcome (ConnectorSnapshot nu) → Option nu.Float → Option nu.Float
  rate_after network product (raised e) known = known
  rate_after network product (ok snapshot) known =
      last_rate network product snapshot.commissions known

  store_snapshot-payout :
      (o : Outcome (ConnectorSnapshot nu)) (network product : String) (s : MarketStore nu)
      → get_product_payout network product (store_snapshot o s).1
        ≡ rate_after network product o (get_product_payout network product s)
  unfolding store_snapshot rate_after
  store_snapshot-payout (raised e) network product s = refl
  store_snapshot-payout (ok snapshot) network product s =
      upsert_all-payout snapshot.commissions network product s

  -- After a synchronisation with an affiliate network, the rate that is known of any product of any
  -- network is that of its last entry among the commissions that were fetched, and where there is none
  -- the one that was known before; if fetching raises, every rate is as before.
  pub sync_affiliate_lem :
      (fetch : AffiliateNetwork → String → Outcome (ConnectorSnapshot nu)) (from : AffiliateNetwork)
      (token network product : String) (s : MarketStore nu)
      → get_product_payout network product (sync_affiliate fetch from token s).1
        ≡ rate_after network product (fetch from token) (get_product_payout network product s)
  unfolding sync_affiliate
  sync_affiliate_lem fetch from token network product s =
      store_snapshot-payout (fetch from token) network product s
