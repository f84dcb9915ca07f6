-- ===== src/Programs/SyncTool.antt =====
-- sync.go: the tool that runs one side of the calibration by hand, and the addresses that the two sides
-- of pkg/magic/calibration.go use.
use quic_hop.Base.{
  ℕ, ◌≡◌, refl, List, ◌∷◌, ◌++◌, Bool, true, false, if◌then◌else◌, Bool-cases, inl, inr,
}
use quic_hop.Config.{codes}
use quic_hop.Strconv.{decimal}

abbrev pub sync_addr : List ℕ
sync_addr = codes "192.168.1.2"

abbrev pub calibration_port : ℕ
calibration_port = 9999

-- Where `StartCalibrationServer` listens: `SyncAddr`, and not `ListenAddr`.
unfoldable pub server_socket : List ℕ
server_socket = sync_addr ++ 58 ∷ decimal calibration_port

-- Where `SyncWithServer` dials.
unfoldable pub client_target : List ℕ → List ℕ
client_target ip = ip ++ codes ":9999"

pub record SyncFlags : Type 0 where
  pub server_mode : Bool
  pub client_mode : Bool
  pub addr : List ℕ

-- The tool serves, calibrates, or ends with a message. `ListenAddr` is a variable that it may set.
pub data SyncRun : Type 0 where
  serves : List ℕ → SyncRun
  calibrates : List ℕ → SyncRun
  refuses : SyncRun

unfoldable pub sync_main : SyncFlags → List ℕ → List ℕ × SyncRun
unfolding server_socket client_target
sync_main flags listen =
    if flags.server_mode
    then (flags.addr, serves server_socket)
    else if flags.client_mode
    then (listen, calibrates (client_target sync_addr))
    else (listen, refuses)

-- The two modes of the tool meet at one address, and the flag for the address changes what neither of
-- them listens on or dials.
pub sync_modes_meet :
    (flags : SyncFlags) (other listen : List ℕ)
    → ((sync_main flags listen).1 ≡ (sync_main (record flags { addr = other }) listen).1)
      × ((sync_main (record { server_mode = true; client_mode = false; addr = other }) listen).1
          ≡ serves server_socket)
      × ((sync_main (record { server_mode = false; client_mode = true; addr = other }) listen).1
          ≡ calibrates server_socket)
unfolding sync_main decimal
sync_modes_meet flags other listen = (
  elim (Bool-cases flags.server_mode) [ inl on ↦ rw on refl | inr off ↦ rw off refl ],
  refl,
  refl,
)
