-- ===== src/Share/Adb/Examples.antt =====
-- share/adb.rs at concrete inputs: one device shared of two attached.
use dial_f.Prelude.{◌≡◌, ◌⊎◌, refl, true, false, some, [], ◌∷◌, ◌++◌, keep, arith, All}
use dial_f.Prelude.Outcome.{ok}
use dial_f.Prelude.Text.{Text, bytes, strip_prefix, text_eq, starts_with}
use dial_f.Prelude.Text.Utf8.{from_utf8_lossy, from_utf8_lossy-ascii}
use dial_f.Share.Adb.{
  Targets, only, allows, trim_nul, decide, upstream_request, only_one, blocked, is_list, is_track,
  is_unqualified, decide_bare, named_serial, is_server_scoped,
}
use dial_f.Share.Adb.Confinement.{
  IsHarmless, IsConfined, upstream_request-IsHarmless, upstream_request-IsConfined,
}
use dial_f.Share.Adb.Devices.{parse_device_list, filter_device_list}
use dial_f.Share.Adb.Devices.Filtered.{parse_device_list-filter}
use dial_f.Share.Adb.Numbered.{transport_id, upstream_request-transport_id}
use dial_f.Share.Adb.Wire.{Wires, read_message, read_down, relay_filtered_list, frame, gate}
use dial_f.Share.Adb.Wire.Frames.{read_message-frame}
use dial_f.Share.Adb.Wire.Relay.{IsSendable, frames, filtered, relay_filtered_list-frames}
use dial_f.Share.Adb.Wire.Gate.{gate_lem}

abbrev one_shared : Targets
one_shared = only (bytes "A1" ∷ [])

scoped_request :
    upstream_request (bytes "host:get-state") one_shared ≡ some (bytes "host-serial:A1:get-state")
unfolding upstream_request decide blocked is_list is_track is_unqualified decide_bare named_serial
    is_server_scoped strip_prefix bytes text_eq starts_with only_one trim_nul
scoped_request = refl

upstream_request-IsHarmless_example : IsHarmless (bytes "host-serial:A1:get-state")
upstream_request-IsHarmless_example =
    upstream_request-IsHarmless (bytes "host:get-state") one_shared scoped_request

upstream_request-IsConfined_example : IsConfined one_shared (bytes "host-serial:A1:get-state")
upstream_request-IsConfined_example =
    upstream_request-IsConfined (bytes "host:get-state") one_shared scoped_request

upstream_request-transport_id_example :
    upstream_request (transport_id ++ bytes "7") one_shared ≡ some (transport_id ++ bytes "7")
upstream_request-transport_id_example = upstream_request-transport_id (bytes "7") one_shared

abbrev two_attached : Text
two_attached = bytes "A1\tdevice\nB2\toffline"

parse_device_list-filter_example :
    parse_device_list (filter_device_list two_attached one_shared)
    ≡ keep (λ d. allows one_shared d.serial) (parse_device_list two_attached)
parse_device_list-filter_example = parse_device_list-filter (bytes "A1" ∷ []) two_attached

abbrev asking : Wires
asking = record {
  down_in = frame (bytes "host:kill");
  down_out = [];
  up_in = bytes "OKAY0000";
  up_out = [];
  spliced = false;
}

gate_lem_example :
    (((gate one_shared asking).1.up_out ≡ []) × ((gate one_shared asking).1.spliced ≡ false))
    ⊎ ((request q : Text) × ((read_message read_down asking).0 ≡ ok request)
        × (upstream_request request one_shared ≡ some q)
        × IsHarmless q
        × IsConfined one_shared q
        × ((gate one_shared asking).1.up_out ≡ [] ++ frame q))
gate_lem_example = gate_lem one_shared asking

host_version_ascii : from_utf8_lossy (bytes "host:version") ≡ bytes "host:version"
unfolding bytes
host_version_ascii = from_utf8_lossy-ascii (bytes "host:version") (omega arith)

read_message-frame_example :
    read_message read_down (record asking { down_in = frame (bytes "host:version") ++ bytes "x" })
    ≡ (ok (bytes "host:version"), record asking { down_in = bytes "x" })
read_message-frame_example =
    read_message-frame (bytes "host:version") (bytes "x") asking (unfold bytes in omega arith)
      host_version_ascii

two_lists : All IsSendable (bytes "A1\tdevice\nB2\tdevice\n" ∷ bytes "B2\tdevice\n" ∷ [])
unfolding bytes
two_lists = (
  (omega arith, from_utf8_lossy-ascii (bytes "A1\tdevice\nB2\tdevice\n") (omega arith)),
  ((omega arith, from_utf8_lossy-ascii (bytes "B2\tdevice\n") (omega arith)), tt),
)

-- Of two devices one is shared, and then it is unplugged.
relay_filtered_list-frames_example :
    (relay_filtered_list one_shared true (record asking {
      up_in = bytes "OKAY" ++ frames (bytes "A1\tdevice\nB2\tdevice\n" ∷ bytes "B2\tdevice\n" ∷ []);
    })
      ≡ (
        ok tt,
        record asking {
          up_in = [];
          down_out =
              []
              ++ (bytes "OKAY"
                  ++ frames (
                      filtered one_shared
                        (bytes "A1\tdevice\nB2\tdevice\n" ∷ bytes "B2\tdevice\n" ∷ [])));
        },
      ))
    × (relay_filtered_list one_shared false (record asking {
      up_in = bytes "OKAY" ++ frames (bytes "A1\tdevice\nB2\tdevice\n" ∷ bytes "B2\tdevice\n" ∷ []);
    })
        ≡ (
          ok tt,
          record asking {
            up_in = frames (bytes "B2\tdevice\n" ∷ []);
            down_out =
                []
                ++ (bytes "OKAY"
                    ++ frame (filter_device_list (bytes "A1\tdevice\nB2\tdevice\n") one_shared));
          },
        ))
relay_filtered_list-frames_example =
    relay_filtered_list-frames one_shared (bytes "A1\tdevice\nB2\tdevice\n")
      (bytes "B2\tdevice\n" ∷ []) asking two_lists
