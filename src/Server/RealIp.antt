-- ===== src/Server/RealIp.antt =====
-- The client address behind reverse proxies (internal/server/security/xff.go). Addresses, their
-- ranges and their texts are those of package net, and the splitting of a header is that of package
-- strings: all are parameters. A nil address is `none`.
pub mod Walk
mod Tests
use fobe.Prelude.{
  String, List, [], ◌∷◌, ◌++◌, Bool, true, false, ◌||◌, Option, none, some, any_of, if◌then◌else◌,
  ◌==◌, String-HasEq,
}

-- What package net says of addresses.
pub record Net (Ip Range : Type 0) : Type 0 where
  pub within : Range → Ip → Bool
  pub parse_ip : String → Option Ip
  pub split_host_port : String → Option (String × String)
  pub to_text : Option Ip → String
  pub is_loopback : Ip → Bool
  pub is_private : Ip → Bool
  pub is_link_local_unicast : Ip → Bool
  pub is_unspecified : Ip → Bool

-- strings.TrimSpace, and strings.Split at the commas.
pub record Strings : Type 0 where
  pub trim_space : String → String
  pub split_commas : String → List String

pub record Request : Type 0 where
  pub remote_addr : String
  pub forwarded_for : String

abbrev pub reversed : List String → List String
reversed [] = []
reversed (x ∷ xs) = reversed xs ++ (x ∷ [])

module _ {Ip Range : Type 0} (net : Net Ip Range) where
  unfoldable pub is_trusted : List Range → Option Ip → Bool
  is_trusted trusted none = false
  is_trusted trusted (some ip) = any_of (λ n. net.within n ip) trusted

  unfoldable pub socket_ip : Request → Option Ip
  socket_ip r = elim (net.split_host_port r.remote_addr) [
    | none ↦ net.parse_ip r.remote_addr
    | some (host, port) ↦ net.parse_ip host
  ]

  unfoldable pub never_blacklist : List Range → String → Bool
  unfolding is_trusted
  never_blacklist trusted text = elim (net.parse_ip text) [
    | none ↦ true
    | some ip ↦
        if net.is_loopback ip
          || (net.is_private ip || (net.is_link_local_unicast ip || net.is_unspecified ip))
        then true
        else is_trusted trusted (some ip)
  ]

module _ {Ip Range : Type 0} (net : Net Ip Range) (strings : Strings) where
  unfoldable pub parse_forwarded : String → Option Ip
  parse_forwarded s = elim (net.parse_ip (strings.trim_space s)) [
    | some ip ↦ some ip
    | none ↦ elim (net.split_host_port (strings.trim_space s)) [
      | some (host, port) ↦ net.parse_ip host
      | none ↦ none
    ]
  ]

  -- The loop, over the entries from the right: the first that is no trusted proxy, if the entries
  -- up to it parse.
  unfoldable pub walk : List Range → List String → Option Ip
  unfolding is_trusted parse_forwarded
  walk trusted [] = none
  walk trusted (part ∷ parts) =
      let rest = walk trusted parts in
      elim (parse_forwarded part) [
        | none ↦ none
        | some ip ↦ if is_trusted net trusted (some ip) then rest else some ip
      ]

  unfoldable pub real_ip : List Range → Request → String
  unfolding is_trusted socket_ip walk
  real_ip trusted r =
      let socket = socket_ip net r in
      if is_trusted net trusted socket
      then (if r.forwarded_for == ""
          then net.to_text socket
          else elim (walk trusted (reversed (strings.split_commas r.forwarded_for))) [
            | none ↦ net.to_text socket
            | some ip ↦ net.to_text (some ip)
          ])
      else net.to_text socket
