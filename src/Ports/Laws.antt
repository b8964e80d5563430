-- ===== src/Ports/Laws.antt =====
-- A port definition that is written out is read back, and what happens to ports out of range.
use k3c.Prelude.{
  ℕ, zero, suc, ◌+◌, ◌^◌, ◌<◌, ◌≡◌, refl, ◌∙◌, ap, none, List, [], ◌∷◌, ◌++◌, arith, map, inr,
}
use mathlib.Core.List.{reverse-append}
use k3c.Prelude.Text.{Text, codes, strip_suffix, cut}
use k3c.Prelude.Text.Laws.{strip_suffix-append, cut-append, cut_absent}
use k3c.Prelude.Int.{ℤ, pos, to_int32, to_int32_fits}
use k3c.Prelude.Decimal.{itoa, parse_int-itoa, contains-itoa}
use k3c.Prelude.Results.{ok}
use k3c.Cri.{Protocol, tcp, udp, PortMapping}
use k3c.Ports.{split_protocol, atoi, parse_parts, parse_port, parse}

abbrev pub suffix : Protocol → Text
suffix tcp = codes "/tcp"
suffix udp = codes "/udp"

-- src:dst/protocol; a source of 0 is left out.
abbrev pub ports_text : ℕ → ℕ → Text
ports_text zero c = itoa c
ports_text (suc h) c = itoa (suc h) ++ b':' ∷ itoa c

abbrev pub show_port : Protocol → ℕ → ℕ → Text
show_port proto h c = ports_text h c ++ suffix proto

not_tcp : (s : Text) → strip_suffix (codes "/tcp") (s ++ codes "/udp") ≡ none
unfolding strip_suffix
not_tcp s = rw (reverse-append s (codes "/udp"), strip_suffix) refl

split_protocol-append :
    (proto : Protocol) (s : Text) → split_protocol (s ++ suffix proto) ≡ (proto, s)
unfolding split_protocol
split_protocol-append tcp s = rw (strip_suffix-append s (codes "/tcp"), split_protocol) refl
split_protocol-append udp s =
    rw (not_tcp s, split_protocol) (rw (strip_suffix-append s (codes "/udp"), split_protocol) refl)

abbrev pub port_mapping : Protocol → ℕ → ℕ → PortMapping
port_mapping proto h c = record {
  protocol = proto;
  container_port = to_int32 (pos c);
  host_port = to_int32 (pos h);
  host_ip = [];
}

atoi-itoa : (n : ℕ) → n < 2 ^ 63 → atoi (itoa n) ≡ ok (pos n)
atoi-itoa n h = rw (parse_int-itoa n h)

parse_parts-ports_text :
    (proto : Protocol) (h c : ℕ)
    → h < 2 ^ 63
    → c < 2 ^ 63
    → parse_parts proto (cut b':' (ports_text h c)) ≡ ok (port_mapping proto h c)
unfolding parse_parts
parse_parts-ports_text proto zero c hh hc =
    rw (cut_absent b':' (itoa c) (contains-itoa c b':' (inr (omega arith))))
      (rw (parse_int-itoa c hc) refl)
parse_parts-ports_text proto (suc h) c hh hc =
    rw (cut-append b':' (itoa (suc h)) (itoa c) (contains-itoa (suc h) b':' (inr (omega arith))))
      (rw (parse_int-itoa (suc h) hh, parse_int-itoa c hc) refl)

-- Any port number below 2 ^ 63 is read, and stored as its 32 low bits.
pub parse_port-show_port :
    (proto : Protocol) (h c : ℕ)
    → h < 2 ^ 63
    → c < 2 ^ 63
    → parse_port (show_port proto h c) ≡ ok (port_mapping proto h c)
unfolding parse_port
parse_port-show_port proto h c hh hc =
    rw (split_protocol-append proto (ports_text h c)) (parse_parts-ports_text proto h c hh hc)

-- A port definition as a user means it.
pub record Publish : Type 0 where
  pub protocol : Protocol
  pub host : ℕ
  pub dest : ℕ

abbrev pub Fits : List Publish → Type 0
Fits [] = Unit
Fits (d ∷ ds) = (d.host < 2 ^ 31) × (d.dest < 2 ^ 31) × Fits ds

abbrev pub written : Publish → Text
written d = show_port d.protocol d.host d.dest

abbrev pub meant : Publish → PortMapping
meant d = record {
  protocol = d.protocol;
  container_port = pos d.dest;
  host_port = pos d.host;
  host_ip = [];
}

port_mapping_exact :
    (d : Publish)
    → d.host < 2 ^ 31
    → d.dest < 2 ^ 31
    → port_mapping d.protocol d.host d.dest ≡ meant d
port_mapping_exact d h c =
    ground (arith, to_int32_fits (pos d.host) h, to_int32_fits (pos d.dest) c)

parse_port-written :
    (d : Publish) → d.host < 2 ^ 31 → d.dest < 2 ^ 31 → parse_port (written d) ≡ ok (meant d)
parse_port-written d h c =
    parse_port-show_port d.protocol d.host d.dest (omega arith) (omega arith)
    ∙ ap ok (port_mapping_exact d h c)

-- A list of port definitions in the form [src:]dst/protocol, with every port below 2 ^ 31, parses
-- without an error to exactly the mappings that it means, in order.
pub parse_ports-written : (ds : List Publish) → Fits ds → parse (map written ds) ≡ ok (map meant ds)
unfolding parse
parse_ports-written [] h = refl
parse_ports-written (d ∷ ds) h = rw (parse_port-written d h.0 h.1, parse_ports-written ds h.2) refl

-- Port numbers are not checked against the range of a port: a container port and the same number
-- plus 2 ^ 32 give the same mapping, for every protocol and every host port below 2 ^ 63.
pub parse_port_wraps :
    (proto : Protocol) (h c : ℕ)
    → h < 2 ^ 63
    → c + 2 ^ 32 < 2 ^ 63
    → parse_port (show_port proto h (c + 2 ^ 32)) ≡ parse_port (show_port proto h c)
unfolding to_int32
parse_port_wraps proto h c hh hc =
    rw
      (
        parse_port-show_port proto h (c + 2 ^ 32) hh hc,
        parse_port-show_port proto h c hh (omega arith),
      )
      (ap (λ m. ok (wrapped_mapping m)) same_bits)
  where
    wrapped_mapping : ℤ → PortMapping
    wrapped_mapping m = record {
      protocol = proto;
      container_port = m;
      host_port = to_int32 (pos h);
      host_ip = [];
    }

    same_bits : to_int32 (pos (c + 2 ^ 32)) ≡ to_int32 (pos c)
    same_bits = ground arith
