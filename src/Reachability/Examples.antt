-- ===== src/Reachability/Examples.antt =====
-- reachability.rs on small rule lists.
use dial_f.Prelude.{◌≡◌, refl, List, [], ◌∷◌}
use dial_f.Prelude.Text.{Text, bytes, text_eq}
use dial_f.Share.Adb.Devices.{lines}
use dial_f.Reachability.{Finding, only_on, iptables_open, group_by_fix}
use dial_f.Reachability.Openings.{Answers, iptables_open-Answers}
use dial_f.Reachability.Grouped.{solutions, problems_of, found, group_by_fix_lem}
use dial_f.Reachability.Noted.{IsDistinct}
use dial_f.Prelude.Text.{
  strip_prefix, trim, to_ascii_lowercase, split_whitespace, starts_with, contains, parse_unsigned,
  digit_value, parse_digits,
}
use dial_f.Share.Client.{split_once}
use dial_f.Reachability.{yes, no, split, in_range, is_port}
use dial_f.Reachability.Hosts.{
  parse_os_release, debian, field, value_of, trim_quotes, trim_quotes_start, first_distro,
  distro_of, is_one_of,
}
use dial_f.Reachability.Nftables.{
  nft_open, line_opens, without_comment, before_first, after_first, is_hit, ports_of, spec_covers,
  blank_out, word_covers, named, is_restrictive, drops,
}

abbrev two_rules : Text
two_rules =
    bytes
      "-A INPUT -p tcp -i wlan0 --dport 8000:9000 -j ACCEPT\n-A INPUT -p tcp -s 10.0.0.1 -j ACCEPT\n"

iptables_open-Answers_example :
    Answers
      (bytes "INPUT")
      (bytes "ACCEPT")
      (bytes "tcp")
      8765
      (lines two_rules)
      (iptables_open two_rules (bytes "INPUT") (bytes "ACCEPT") (bytes "tcp") 8765)
iptables_open-Answers_example =
    iptables_open-Answers two_rules (bytes "INPUT") (bytes "ACCEPT") (bytes "tcp") 8765

abbrev three_findings : List Finding
three_findings =
    record { problem = bytes "a"; fix = bytes "x" }
    ∷ record { problem = bytes "b"; fix = bytes "y" }
    ∷ record { problem = bytes "c"; fix = bytes "x" }
    ∷ []

group_by_fix_lem_example :
    IsDistinct (solutions (group_by_fix three_findings))
    × ((fix : Text) → problems_of fix (group_by_fix three_findings) ≡ found fix three_findings)
group_by_fix_lem_example = group_by_fix_lem three_findings

only_on_wlan0 :
    iptables_open two_rules (bytes "INPUT") (bytes "ACCEPT") (bytes "tcp") 8765
    ≡ only_on (bytes "wlan0" ∷ [])
unfolding iptables_open bytes
only_on_wlan0 = refl

-- Linux Mint, by the distributions that it is like.
mint-debian :
    parse_os_release (bytes "NAME=\"Linux Mint\"\nID=linuxmint\nID_LIKE=\"ubuntu debian\"\n")
    ≡ debian
unfolding parse_os_release lines field value_of strip_prefix trim trim_quotes trim_quotes_start
    to_ascii_lowercase split_whitespace first_distro distro_of is_one_of text_eq bytes
mint-debian = refl

abbrev nftables_conf : Text
nftables_conf =
    bytes
      "chain input {\n  type filter hook input priority 0; policy drop;\n  tcp dport { 22, 8765 } accept # phones\n}\n"

dport-8765 : nft_open nftables_conf (bytes "tcp") 8765 ≡ yes
unfolding nft_open lines line_opens without_comment before_first after_first strip_prefix contains
    starts_with is_hit ports_of spec_covers split blank_out word_covers named split_once in_range
    is_port text_eq bytes parse_unsigned parse_digits digit_value is_restrictive drops
dport-8765 = refl

dport-9000 : nft_open nftables_conf (bytes "tcp") 9000 ≡ no
unfolding nft_open lines line_opens without_comment before_first after_first strip_prefix contains
    starts_with is_hit ports_of spec_covers split blank_out word_covers named split_once in_range
    is_port text_eq bytes parse_unsigned parse_digits digit_value is_restrictive drops
dport-9000 = refl
