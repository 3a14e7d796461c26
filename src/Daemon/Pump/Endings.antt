-- ===== src/Daemon/Pump/Endings.antt =====
-- How the callbacks of src/daemon/client_common.cpp end: only a hang-up erases the client.
use theme_srv.Common.{ℕ, zero, suc, Bool, true, false, Option, none, some, ◌≡◌, refl, if◌then◌else◌}
use theme_srv.Io.Cipher.{Cipher}
use theme_srv.Io.Crypto.{Bignums}
use theme_srv.Io.Read.{handle_read}
use theme_srv.Io.Write.{pump_write}
use theme_srv.Daemon.Client.{Client, Site}
use theme_srv.Daemon.Pump.{
  Turn, over, next, fault, stuck, Ending, alive, erased, faulted, unending, take_turn, post,
  pump_read, after_write, handle_dispatch,
}

module _ {ev : Cipher} where
  abbrev pub is_erased : Ending ev → Bool
  is_erased (alive cli) = false
  is_erased erased = true
  is_erased faulted = false
  is_erased unending = false

  take_turn-is_erased :
      (t : Turn ev) (k : Client ev → Ending ev)
      → ((cli : Client ev) → is_erased (k cli) ≡ false)
      → is_erased (take_turn t k) ≡ false
  take_turn-is_erased (over cli) k h = refl
  take_turn-is_erased (next cli) k h = h cli
  take_turn-is_erased fault k h = refl
  take_turn-is_erased stuck k h = refl

module _ {ev : Cipher} {bn : Bignums} (site : Site bn) (rounds : ℕ) where
  pump_read-is_erased :
      (fuel : ℕ) (cli : Client ev) → is_erased (pump_read site rounds fuel cli) ≡ false
  unfolding pump_read
  pump_read-is_erased zero cli = refl
  pump_read-is_erased (suc fuel) cli =
      take_turn-is_erased (post site cli (handle_read rounds cli.base)) (pump_read site rounds fuel)
        (pump_read-is_erased fuel)

  -- A callback of a connection erases the client exactly on a hang-up, whatever else the event
  -- says and whatever messages are read.
  pub handle_dispatch-is_erased :
      (fuel : ℕ) (cli : Client ev) (hup writable readable : Bool)
      → is_erased (handle_dispatch site rounds fuel cli hup writable readable) ≡ hup
  unfolding handle_dispatch
  handle_dispatch-is_erased fuel cli true writable readable = refl
  handle_dispatch-is_erased fuel cli false writable readable =
      go readable (if writable then pump_write cli.base else some cli.base)
    where
      go :
          (readable : Bool) (o : Option _)
          → is_erased (after_write site rounds fuel readable cli o) ≡ false
      go readable none = refl
      go true (some base) = pump_read-is_erased fuel (record cli { base = base })
      go false (some base) = refl
