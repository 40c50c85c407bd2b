-- ===== src/Console/Tests/Sale.antt =====
-- Charges at the point of sale, at a concrete main process.
use hotelia.Prelude.{◌≡◌, refl, codes, [], none, some, true, false, same_text}
use hotelia.Prelude.Int.{pos, ◌+ℤ◌}
use hotelia.Ipc.Wrap.{unwrap, wrap_ipc}
use hotelia.Payments.Row.{cash}
use hotelia.Console.Inputs.{parse_verify, parse_charge}
use hotelia.Pms.Barrier.{active_stay, stay_in_room, pos_verify_guest, PosChargeResult}
use hotelia.Pms.Charge.{pos_post_charge, charge_stay, charged_folio, rate_of}
use hotelia.Tax.Engine.{round2}
use hotelia.Console.Database.{get_db}
use hotelia.Console.Main.{Main, handle}
use hotelia.Console.Bridge.{main_bridge}
use hotelia.Console.Store.{AppStore, initial_store, mount}
use hotelia.Console.Terminal.{Terminal, Audit, PosConfig, pos_config, verify_and_post}
use hotelia.Console.Terminal.Posted.{Posted, verify_and_post-Posted}
use hotelia.Console.Terminal.Offline.{IsLost, mount-IsLost}
use hotelia.Console.Tests.{world, main_with, main, parse_float}

abbrev terminal : Terminal
terminal = record {
  room = codes "204";
  last_name = codes "otieno";
  item = codes "Champagne";
  amount = codes "25.00";
  payment_method = cash;
  verification = none;
  charge = none;
  busy = false;
  toasts = [];
}

abbrev audit : Audit
audit = record { device_fingerprint = codes "fp"; user_agent = codes "ua"; ts = codes "now" }

abbrev config : PosConfig
config = record { property_id = some (codes "p7"); db_available = true }

abbrev sold : Terminal × Main
sold =
    verify_and_post (some (main_bridge world)) parse_float config audit (codes "order-001") terminal
      main

abbrev result : PosChargeResult
result = record {
  line_item_id = 51;
  folio_id = 81;
  description = codes "Champagne (204)";
  amount = 2500;
  tax_rate = 1800;
  tax_amount = 450;
  total = 2950;
  balance = pos 2950;
  room_number = codes "204";
  verified_last_name = codes "otieno";
  matched_guest_id = 31;
  reservation_id = 21;
}

sells : sold.0.charge ≡ some result
unfolding verify_and_post handle wrap_ipc unwrap parse_verify parse_charge get_db pos_verify_guest
    active_stay same_text pos_post_charge stay_in_room charge_stay charged_folio rate_of round2 ◌+ℤ◌
sells = refl

verify_and_post-Posted_example :
    Posted world parse_float audit (codes "order-001") terminal main result sold.1
verify_and_post-Posted_example =
    verify_and_post-Posted world parse_float audit (codes "order-001") terminal main result config
      refl sells

-- No address of the database is set.
abbrev unset : Main
unset = main_with none

abbrev mounted : AppStore × Main
mounted = mount (some (main_bridge world)) initial_store unset

mount-IsLost_example : IsLost terminal unset (
    verify_and_post
      (some (main_bridge world))
      parse_float
      (pos_config mounted.0.state.config)
      audit
      (codes "order-001")
      terminal
      mounted.1)
unfolding get_db
mount-IsLost_example =
    mount-IsLost world parse_float audit (codes "order-001") terminal initial_store unset b'p'
      (codes "7") (refl, refl) (λ e. cc) refl
