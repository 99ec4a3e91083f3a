-- ===== src/Program/Events.antt =====
-- The event loop and resyncProcess of registrator.go: what they ask of the bridge.
use registrator.Common.{
  ℕ, ◌≡◌, ◌≢◌, ◌⊎◌, inl, inr, refl, sym, String, Bool, true, false, ◌&&◌, not, Option, List, [],
  ◌∷◌, if◌then◌else◌, ◌==◌, eq-cases, arith,
}
use registrator.Bridge.Types.{SyncMessage, Config}
use registrator.Bridge.Sync.{Call, add_call, remove_on_exit_call, sync_call}
use registrator.Program.Address.{is_ipv4}
use registrator.Program.Lookup.{ip_from_external_source, should_exit_on_ip_lookup_failure}

-- A Docker event's status and id, with the discovered address.
unfoldable pub handle_event : String → String → String → List Call
handle_event discovered_ip status id =
    if status == "start"
    then add_call id discovered_ip ∷ []
    else if status == "die"
    then remove_on_exit_call id ∷ []
    else []

-- How a resynchronisation ends: os.Exit(2), or the discovered address and the calls of the bridge.
pub data Resync : Type 0 where
  exits : Resync
  resynced : String → List Call → Resync

abbrev pub push : Bool → String → Resync
push quiet ip = resynced ip (sync_call (record { quiet = quiet; ip = ip }) ∷ [])

-- resyncProcess, with the answers of the external source to this one's attempts.
unfoldable pub resync_process : (ℕ → Option String) → ℕ → Config → String → String → Resync
unfolding ip_from_external_source is_ipv4
resync_process answer retries config source discovered_ip =
    let (ip, success) = ip_from_external_source answer retries in
    if source == ""
    then resynced discovered_ip (sync_call (record { quiet = true; ip = "" }) ∷ [])
    else if not success && should_exit_on_ip_lookup_failure config
    then exits
    else if success
    then if is_ipv4 ip then push true ip else resynced ip []
    else resynced discovered_ip []

abbrev with_ip : String → SyncMessage
with_ip ip = record { quiet = true; ip = ip }

same_push :
    (a b : String) (m n : SyncMessage) (calls calls' : List Call)
    → resynced a (sync_call m ∷ calls) ≡ resynced b (sync_call n ∷ calls')
    → (a ≡ b) × (m ≡ n) × (calls ≡ calls')
same_push a b m n calls calls' e = (ground arith, ground arith, ground arith)

same_pair : (p : String × Bool) (a : String) → p.0 ≡ a → p.1 ≡ true → p ≡ (a, true)
same_pair (x, b) a e e' = rw (e, e') refl

-- The cases of an answer to which a synchronisation is asked for.
answered :
    (success fails valid : Bool) (x old ip : String) (m : SyncMessage) (calls : List Call)
    → (if not success && fails
        then exits
        else if success
        then if valid then push true x else resynced x []
        else resynced old [])
      ≡ resynced ip (sync_call m ∷ calls)
    → (success ≡ true) × (valid ≡ true) × (x ≡ ip) × (with_ip x ≡ m) × ([] ≡ calls)
answered true fails true x old ip m calls e =
    let (same, message, none_more) = same_push x ip (with_ip x) m [] calls e in
    (refl, refl, same, message, none_more)
answered true fails false x old ip m calls e = cc
answered false true valid x old ip m calls e = cc
answered false false valid x old ip m calls e = cc

-- Every synchronisation that a resynchronisation asks for is quiet; with an external source it has
-- the address that the source gave, which is one of four octets and the new discovered address.
resync_process_sound :
    (answer : ℕ → Option String) (retries : ℕ) (config : Config) (source old ip : String)
    (m : SyncMessage) (calls : List Call)
    → resync_process answer retries config source old ≡ resynced ip (sync_call m ∷ calls)
    → (m.quiet ≡ true)
      × (calls ≡ [])
      × (((source ≡ "") × (m.ip ≡ "") × (ip ≡ old))
          ⊎ ((source ≢ "")
              × (m.ip ≡ ip)
              × (is_ipv4 ip ≡ true)
              × (ip_from_external_source answer retries ≡ (ip, true))))
unfolding resync_process
resync_process_sound answer retries config source old ip m calls e =
    let (x, success) = ip_from_external_source answer retries in
    elim (eq-cases source "") [
      | inl (s, t) ↦
          let (same, message, none_more) = same_push old ip (with_ip "") m [] calls (rw t at e) in
          rw (← message) (refl, sym none_more, inl (s, refl, sym same))
      | inr (s, t) ↦
          let (succeeded, valid, same, message, none_more) =
            answered success config.exit_on_ip_lookup_failure (is_ipv4 x) x old ip m calls
              (rw t at e) in
          rw (← message) (
            refl,
            sym none_more,
            inr (
              s,
              same,
              rw (← same) valid,
              same_pair (ip_from_external_source answer retries) ip same succeeded,
            ),
          )
    ]
