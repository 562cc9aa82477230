-- ===== src/Reachability/Findings.antt =====
-- reachability.rs: the findings about each kind of firewall.
use dial_f.Prelude.{
  ℕ, ◌≡◌, refl, Bool, true, false, ◌&&◌, ◌||◌, Option, none, some, List, [], ◌∷◌, ◌++◌, exists,
  is_empty,
}
use dial_f.Prelude.Text.{Text, bytes, text_eq, split_whitespace, decimal}
use dial_f.Share.Client.{split_once}
use dial_f.Reachability.{Finding, Open, yes, no, unknown, only_on, ports_cover}

abbrev pub mdns_port : ℕ
mdns_port = 5353

abbrev pub ws_what : Text
ws_what = bytes "the phone's connection to dialfd"

abbrev pub mdns_what : Text
mdns_what = bytes "mDNS, how the phone discovers dialfd"

unfoldable pub join_interfaces : List Text → Text
join_interfaces [] = []
join_interfaces (i ∷ []) = i
join_interfaces (i ∷ j ∷ is) = i ++ (bytes ", " ++ join_interfaces (j ∷ is))

-- `{proto} {port} ({what})`
unfoldable pub port_of : Text → Text → ℕ → Text
unfolding decimal
port_of what proto port =
    proto ++ (bytes " " ++ (decimal port ++ (bytes " (" ++ (what ++ bytes ")"))))

unfoldable pub blocked : (what proto : Text) → ℕ → Text → Open → Option Text
unfolding port_of join_interfaces
blocked what proto port fw yes = none
blocked what proto port fw no =
    some (bytes "the " ++ (fw ++ (bytes " firewall blocks " ++ port_of what proto port)))
blocked what proto port fw (only_on is) = some (
    bytes "the "
    ++ (fw
        ++ (bytes " firewall allows "
            ++ (port_of what proto port
                ++ (bytes " only on "
                    ++ (join_interfaces is ++ bytes " — not on the network the phone is on"))))))
blocked what proto port fw unknown = some (
    bytes "the "
    ++ (fw
        ++ (bytes " firewall is active and may block "
            ++ (port_of what proto port ++ bytes "; its rules could not be read without root"))))

unfoldable pub finding_if : Option Text → Text → List Finding
finding_if none fix = []
finding_if (some problem) fix = record { problem = problem; fix = fix } ∷ []

-- The findings of a firewall that goes by a name, with its fixes for the two ports.
unfoldable pub both_findings : Text → ℕ → Open → Open → (ws_fix mdns_fix : Text) → List Finding
unfolding blocked finding_if
both_findings fw ws_port tcp udp ws_fix mdns_fix =
    finding_if (blocked ws_what (bytes "TCP") ws_port fw tcp) ws_fix
    ++ finding_if (blocked mdns_what (bytes "UDP") mdns_port fw udp) mdns_fix

unfoldable pub ufw_findings : ℕ → Open → Open → List Finding
unfolding both_findings decimal
ufw_findings ws_port tcp udp =
    both_findings (bytes "ufw") ws_port tcp udp
      (bytes "sudo ufw allow " ++ (decimal ws_port ++ bytes "/tcp"))
      (bytes "sudo ufw allow " ++ (decimal mdns_port ++ bytes "/udp"))

unfoldable pub nft_fix : Text → ℕ → Text
unfolding decimal
nft_fix proto port =
    bytes "add `"
    ++ (proto
        ++ (bytes " dport "
            ++ (decimal port
                ++ bytes
                    " accept` to the input chain in /etc/nftables.conf, then sudo systemctl reload nftables")))

unfoldable pub nft_findings : ℕ → Open → Open → List Finding
unfolding both_findings nft_fix
nft_findings ws_port tcp udp =
    both_findings (bytes "nftables") ws_port tcp udp (nft_fix (bytes "tcp") ws_port)
      (nft_fix (bytes "udp") mdns_port)

unfoldable pub iptables_fix : Text → ℕ → Text
unfolding decimal
iptables_fix proto port =
    bytes "add `-A INPUT -p "
    ++ (proto
        ++ (bytes " --dport "
            ++ (decimal port
                ++ bytes
                    " -j ACCEPT` to /etc/iptables/iptables.rules, then sudo systemctl restart iptables")))

unfoldable pub iptables_findings : ℕ → Open → Open → List Finding
unfolding both_findings iptables_fix
iptables_findings ws_port tcp udp =
    both_findings (bytes "iptables") ws_port tcp udp (iptables_fix (bytes "tcp") ws_port)
      (iptables_fix (bytes "udp") mdns_port)

-- Whether one of the listed ports, `{spec}/{proto}`, covers the port.
unfoldable pub has_port : Text → Text → ℕ → Bool
unfolding split_whitespace split_once text_eq ports_cover
has_port ports proto port =
    exists
      (λ p. elim (split_once 47 p) [
        | none ↦ false
        | some (spec, pr) ↦ text_eq pr proto && ports_cover spec port
      ])
      (split_whitespace ports)

abbrev pub open_if : Bool → Open
open_if true = yes
open_if false = no

unfoldable pub has_service : Text → Text → Bool
unfolding split_whitespace text_eq
has_service services name = exists (λ s. text_eq s name) (split_whitespace services)

unfoldable pub firewalld_findings_from : ℕ → (zone ports services : Text) → List Finding
unfolding both_findings has_port has_service decimal
firewalld_findings_from ws_port zone ports services =
    both_findings (bytes "firewalld (zone " ++ (zone ++ bytes ")")) ws_port
      (open_if (has_port ports (bytes "tcp") ws_port))
      (open_if (has_port ports (bytes "udp") mdns_port || has_service services (bytes "mdns")))
      (bytes "sudo firewall-cmd --permanent --add-port="
        ++ (decimal ws_port ++ bytes "/tcp && sudo firewall-cmd --reload"))
      (bytes "sudo firewall-cmd --permanent --add-service=mdns && sudo firewall-cmd --reload")

abbrev pub is_yes : Open → Bool
is_yes yes = true
is_yes o = false

both_findings-is_empty :
    (fw : Text) (ws_port : ℕ) (tcp udp : Open) (a b : Text)
    → is_empty (both_findings fw ws_port tcp udp a b) ≡ (is_yes tcp && is_yes udp)
unfolding both_findings blocked finding_if
both_findings-is_empty fw ws_port yes yes a b = refl
both_findings-is_empty fw ws_port yes no a b = refl
both_findings-is_empty fw ws_port yes unknown a b = refl
both_findings-is_empty fw ws_port yes (only_on is) a b = refl
both_findings-is_empty fw ws_port no udp a b = refl
both_findings-is_empty fw ws_port unknown udp a b = refl
both_findings-is_empty fw ws_port (only_on is) udp a b = refl

both_findings-open_if :
    (fw : Text) (ws_port : ℕ) (s t : Bool) (a b : Text)
    → is_empty (both_findings fw ws_port (open_if s) (open_if t) a b) ≡ (s && t)
both_findings-open_if fw ws_port true true a b = both_findings-is_empty fw ws_port yes yes a b
both_findings-open_if fw ws_port true false a b = both_findings-is_empty fw ws_port yes no a b
both_findings-open_if fw ws_port false t a b = both_findings-is_empty fw ws_port no (open_if t) a b

-- A host with firewalld has nothing to report exactly when a listed tcp port covers the port of dialfd,
-- and a listed udp port covers that of mDNS or the mdns service is on.
pub firewalld_findings_from-is_empty :
    (ws_port : ℕ) (zone ports services : Text)
    → is_empty (firewalld_findings_from ws_port zone ports services) ≡ (
        has_port ports (bytes "tcp") ws_port
        && (has_port ports (bytes "udp") mdns_port || has_service services (bytes "mdns")))
unfolding firewalld_findings_from
firewalld_findings_from-is_empty ws_port zone ports services =
    both_findings-open_if _ ws_port (has_port ports (bytes "tcp") ws_port)
      (has_port ports (bytes "udp") mdns_port || has_service services (bytes "mdns")) _ _
