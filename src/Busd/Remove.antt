-- ===== src/Busd/Remove.antt =====
-- `remove_client` of services/bb-busd.c on the table of subscriptions.
use nxp_imx95_building_block.Common.{
  ℕ, ◌≡◌, List, [], ◌∷◌, arith, ◌==◌, if◌then◌else◌, length, Bytes,
}
use nxp_imx95_building_block.Busd.{Sub, remove_subs}
use nxp_imx95_building_block.Busd.Ids.{count-remove_all}
use nxp_imx95_building_block.Busd.Deliver.{matches}

-- After a client is removed no entry sends to it, and every other client has the subscriptions, and
-- so the deliveries, that it had.
pub remove_subs_lem :
    (c fd : ℕ) (t : Bytes) (subs : List Sub)
    → matches c t (remove_subs fd subs) ≡ (if c == fd then 0 else matches c t subs)
unfolding matches remove_subs
remove_subs_lem c fd t [] = ground arith
remove_subs_lem c fd t (s ∷ ss) =
    ground
      (arith, count-remove_all (length s.client_ids) c fd s.client_ids, remove_subs_lem c fd t ss)
