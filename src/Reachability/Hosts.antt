-- ===== src/Reachability/Hosts.antt =====
-- reachability.rs: the kinds of host, avahi, the firewall of macOS, and the report. Whether dialfd is
-- the machine-wide service is an argument. The words that name a distribution are ASCII, and no other
-- letter has one of theirs as its lower case, so `to_lowercase` is that of ASCII.
use dial_f.Prelude.{
  Bool, true, false, not, ◌&&◌, ◌||◌, Option, none, some, List, [], ◌∷◌, ◌++◌, exists, is_empty,
  reverse, if◌then◌else◌, ◌==◌,
}
use dial_f.Prelude.Text.{
  Text, bytes, text_eq, trim, strip_prefix, contains, split_whitespace, to_ascii_lowercase,
}
use dial_f.Share.Adb.Devices.{lines}
use dial_f.Reachability.{Finding, Step, group_by_fix}

pub data Distro : Type 0 where
  nix_os debian arch fedora suse other_distro : Distro

-- `str::trim_matches` of a quote.
unfoldable pub trim_quotes_start : Text → Text
trim_quotes_start [] = []
trim_quotes_start (c ∷ s) = let rest = trim_quotes_start s in if c == 34 then rest else c ∷ s

unfoldable pub trim_quotes : Text → Text
unfolding trim_quotes_start
trim_quotes s = reverse (trim_quotes_start (reverse (trim_quotes_start s)))

unfoldable pub is_one_of : List Text → Text → Bool
unfolding text_eq
is_one_of words w = exists (text_eq w) words

-- The value of a line `key=value`.
unfoldable pub value_of : Text → Text → Option Text
unfolding strip_prefix
value_of key line = elim (strip_prefix key line) [
  | none ↦ none
  | some rest ↦ strip_prefix (bytes "=") rest
]

unfoldable pub field : Text → List Text → Text
unfolding value_of trim trim_quotes to_ascii_lowercase
field key [] = []
field key (l ∷ ls) =
    let later = field key ls in
    elim (value_of key l) [ some v ↦ to_ascii_lowercase (trim_quotes (trim v)) | none ↦ later ]

unfoldable pub distro_of : Text → Option Distro
unfolding is_one_of
distro_of w =
    if is_one_of (bytes "nixos" ∷ []) w
    then some nix_os
    else if is_one_of (bytes "debian" ∷ bytes "ubuntu" ∷ []) w
    then some debian
    else if is_one_of (bytes "arch" ∷ []) w
    then some arch
    else if is_one_of (bytes "fedora" ∷ bytes "rhel" ∷ bytes "centos" ∷ []) w
    then some fedora
    else if is_one_of (bytes "suse" ∷ bytes "opensuse" ∷ []) w
    then some suse
    else none

unfoldable pub first_distro : List Text → Distro
unfolding distro_of
first_distro [] = other_distro
first_distro (w ∷ ws) =
    let rest = first_distro ws in elim (distro_of w) [ some d ↦ d | none ↦ rest ]

unfoldable pub parse_os_release : Text → Distro
unfolding lines field split_whitespace first_distro
parse_os_release text =
    first_distro
      (field (bytes "ID") (lines text) ∷ split_whitespace (field (bytes "ID_LIKE") (lines text)))

abbrev pub nixos_avahi : Text
nixos_avahi =
    bytes
      "services.avahi = { enable = true; openFirewall = true; publish = { enable = true; userServices = true; }; };"

unfoldable pub restart_command : (system : Bool) → Text
restart_command true = bytes "sudo dialf service restart"
restart_command false = bytes "dialf service restart --user"

unfoldable pub restart_step : (system : Bool) → Text
unfolding restart_command
restart_step system = bytes "then `" ++ (restart_command system ++ bytes "`")

-- What gets avahi onto a distribution.
unfoldable pub avahi_package : Distro → Text
avahi_package nix_os =
    bytes "add to configuration.nix: " ++ (nixos_avahi ++ bytes " then `sudo nixos-rebuild switch`")
avahi_package debian =
    bytes "sudo apt install avahi-daemon avahi-utils && sudo systemctl enable --now avahi-daemon"
avahi_package arch = bytes "sudo pacman -S avahi && sudo systemctl enable --now avahi-daemon"
avahi_package fedora =
    bytes "sudo dnf install avahi-tools && sudo systemctl enable --now avahi-daemon"
avahi_package suse =
    bytes "sudo zypper install avahi-utils && sudo systemctl enable --now avahi-daemon"
avahi_package other_distro =
    bytes "install avahi (the daemon plus the `avahi-publish` tool) and start avahi-daemon"

unfoldable pub avahi_install_fix : (system : Bool) → Distro → Text
unfolding avahi_package restart_step
avahi_install_fix system d = avahi_package d ++ (bytes ", " ++ restart_step system)

unfoldable pub start_fix : Distro → Text
start_fix nix_os =
    bytes "add to configuration.nix: " ++ (nixos_avahi ++ bytes " then `sudo nixos-rebuild switch`")
start_fix other_distro = bytes "start avahi-daemon"
start_fix d = bytes "sudo systemctl enable --now avahi-daemon"

unfoldable pub publish_fix : Distro → Text
publish_fix nix_os =
    bytes
      "set services.avahi.publish = { enable = true; userServices = true; }; then `sudo nixos-rebuild switch`"
publish_fix d =
    bytes
      "in /etc/avahi/avahi-daemon.conf under [publish] set disable-publishing=no and disable-user-service-publishing=no, then sudo systemctl restart avahi-daemon"

unfoldable pub cause_of : (said : Text) → Distro → Finding
unfolding contains start_fix publish_fix
cause_of said d =
    if contains (bytes "Daemon not running") said
    then record {
      problem =
          bytes
            "avahi-daemon is not running, so dialfd cannot advertise itself over mDNS and phones cannot discover it";
      fix = start_fix d;
    }
    else if contains (bytes "Not permitted") said || contains (bytes "Access denied") said
    then record {
      problem =
          bytes
            "avahi-daemon refuses to publish services for non-root users, so phones cannot discover dialfd";
      fix = publish_fix d;
    }
    else record {
      problem =
          bytes "avahi-publish stopped, so phones cannot discover dialfd: "
          ++ (if is_empty said then bytes "(it printed nothing)" else said);
      fix = bytes "check `systemctl status avahi-daemon`";
    }

unfoldable pub avahi_cause : (stderr : Text) → Distro → Finding
unfolding cause_of trim
avahi_cause stderr d = cause_of (trim stderr) d

unfoldable pub avahi_failure : (system : Bool) → (stderr : Text) → Distro → Finding
unfolding avahi_cause restart_step
avahi_failure system stderr d =
    let f : Finding = avahi_cause stderr d in
    record f { fix = f.fix ++ (bytes ", " ++ restart_step system) }

abbrev pub socketfilterfw : Text
socketfilterfw = bytes "/usr/libexec/ApplicationFirewall/socketfilterfw"

unfoldable pub firewall_on : Text → Bool
unfolding contains
firewall_on s =
    contains (bytes "enabled") s
    || (contains (bytes "State = 1") s || contains (bytes "State = 2") s)

unfoldable pub allow_fix : (exe : Text) → Text
allow_fix exe =
    bytes "sudo "
    ++ (socketfilterfw
        ++ (bytes " --add '"
            ++ (exe
                ++ (bytes "' && sudo "
                    ++ (socketfilterfw
                        ++ (bytes " --unblockapp '"
                            ++ (exe
                                ++ bytes
                                    "' (repeat after every dialf upgrade: the path is versioned)")))))))

unfoldable pub macos_findings_from : (exe global block_all app : Text) → List Finding
unfolding firewall_on allow_fix contains
macos_findings_from exe global block_all app =
    if not (firewall_on global)
    then []
    else if contains (bytes "enabled") block_all && not (contains (bytes "disabled") block_all)
    then record {
      problem =
          bytes
            "the macOS firewall is set to block ALL incoming connections, so the phone cannot connect to dialfd";
      fix =
          bytes "sudo " ++ (socketfilterfw ++ (bytes " --setblockall off, then " ++ allow_fix exe));
    }
      ∷ []
    else if contains (bytes "permitted") app
    then []
    else record {
      problem =
          if contains (bytes "blocked") app
          then bytes
              "the macOS firewall blocks incoming connections to dialf, so the phone cannot connect"
          else bytes
              "the macOS firewall is on and dialf is not in its allow list; incoming phone connections may be refused";
      fix = allow_fix exe;
    }
      ∷ []

unfoldable pub problem_lines : List Text → Text
problem_lines [] = []
problem_lines (p ∷ ps) = bytes "  ✗ " ++ (p ++ (bytes "\n" ++ problem_lines ps))

unfoldable pub step_lines : List Step → Text
unfolding problem_lines
step_lines [] = []
step_lines (s ∷ ss) =
    problem_lines s.problems ++ (bytes "    fix: " ++ (s.solution ++ (bytes "\n" ++ step_lines ss)))

unfoldable pub steps_text : List Step → Text
unfolding step_lines
steps_text [] = bytes "No problems detected on this host.\n"
steps_text (s ∷ ss) = bytes "This host is keeping them out:\n" ++ step_lines (s ∷ ss)

unfoldable pub item_lines : List Text → Text
item_lines [] = []
item_lines (l ∷ ls) = bytes "  - " ++ (l ++ (bytes "\n" ++ item_lines ls))

unfoldable pub checklist_text : List Text → Text
unfolding item_lines
checklist_text [] = []
checklist_text (l ∷ ls) = bytes "Also check:\n" ++ item_lines (l ∷ ls)

unfoldable pub render_no_phones : List Finding → (checklist : List Text) → Text
unfolding steps_text group_by_fix checklist_text
render_no_phones findings checklist =
    bytes "No phones connected.\n"
    ++ (steps_text (group_by_fix findings) ++ checklist_text checklist)
