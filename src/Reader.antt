-- ===== src/Reader.antt =====
-- src/libagml_comm/topology/TopologyReader.cpp, with the data hosts of DataHost.cpp beside it: the statements
-- of a model file, and what each asks of the topology.
mod Tests
pub mod Words
pub mod Connect
pub mod Execute
pub mod Run
use lib_agml.Common.{
  ℕ, ◌+◌, ◌-◌, ◌*◌, ◌%◌, ◌^◌, Bool, true, false, ◌&&◌, Option, none, some, List, [], ◌∷◌, ◌++◌, leb,
  ◌==◌, if◌then◌else◌, Result, ok, err, bad_access, unknown_statement, ◌>>=◌, or_fail,
}
use lib_agml.Str.{
  str_after, str_before, str_between, str_has, str_starts_with, str_trim, substr, npos,
}

-- The words of the syntax.
abbrev pub arrow : List ℕ
arrow = 45 ∷ 62 ∷ []

abbrev pub self_arrow : List ℕ
self_arrow = 45 ∷ 111 ∷ 62 ∷ []

abbrev pub local_arrow : List ℕ
local_arrow = 45 ∷ 76 ∷ 62 ∷ []

abbrev pub host_word : List ℕ
host_word = 72 ∷ 111 ∷ 115 ∷ 116 ∷ []

-- `operator==` on strings
unfoldable pub same_text : List ℕ → List ℕ → Bool
same_text [] [] = true
same_text [] (d ∷ t) = false
same_text (c ∷ s) [] = false
same_text (c ∷ s) (d ∷ t) = c == d && same_text s t

-- `DataHost`, less its connection; `nb_threads` is the bit pattern of an `int`.
pub record DataHost : Type 0 where
  pub host_name : List ℕ
  pub server_ip : List ℕ
  pub nb_threads : ℕ

-- What the reader asks of the machine: the name resolution, the machine's own address and port, and the
-- number that a stream reads from a text, as the bit pattern of an `int`.
pub record Machine : Type 0 where
  pub resolve_ip : List ℕ → List ℕ
  pub server_ip : List ℕ
  pub server_port : ℕ
  pub to_int : List ℕ → ℕ

abbrev pub loopback : List ℕ
loopback = 49 ∷ 50 ∷ 55 ∷ 46 ∷ 48 ∷ 46 ∷ 48 ∷ 46 ∷ 49 ∷ []

-- `com_is_my_ip`
pub com_is_my_ip : Machine → List ℕ → Result Bool
com_is_my_ip m ip =
    if str_has ip (58 ∷ [])
    then (do
      port ← str_after ip (58 ∷ [])
      name ← str_before ip (58 ∷ [])
      let real = m.resolve_ip name
      let my_port = m.to_int port == m.server_port
      if same_text real loopback then ok my_port else ok (same_text m.server_ip real && my_port))
    else ok (if same_text ip loopback then true else same_text (m.resolve_ip ip) m.server_ip)

-- `agml_get_datahost`
pub agml_get_datahost : List DataHost → List ℕ → Option DataHost
agml_get_datahost [] name = none
agml_get_datahost (h ∷ hs) name =
    let rest = agml_get_datahost hs name in if same_text h.host_name name then some h else rest

-- `DataHost::is_local`
pub is_local : Machine → DataHost → Result Bool
is_local m h = if same_text h.server_ip [] then ok true else com_is_my_ip m h.server_ip

-- The part of `parse_declare_host` behind the `=`, for a new name.
parse_new_host : Machine → List ℕ → List ℕ → Result DataHost
parse_new_host m name statement = do
  after ← str_after statement (61 ∷ [])
  ip ← str_trim after
  if str_has ip (32 ∷ [])
      then (do
        threads ← str_after ip (32 ∷ [])
        number ← str_trim threads
        address ← str_before ip (32 ∷ [])
        server ← str_trim address
        ok (record { host_name = name; server_ip = server; nb_threads = m.to_int number }))
      else ok (record { host_name = name; server_ip = ip; nb_threads = 1 })

-- `TopologyReader::parse_declare_host`: the host, and the hosts then known.
pub parse_declare_host : Machine → List DataHost → List ℕ → Result (DataHost × List DataHost)
parse_declare_host m hs statement = do
  before ← str_before statement (61 ∷ [])
  name ← str_trim before
  elim (agml_get_datahost hs name) [
    | none ↦ parse_new_host m name statement >>= λ h. ok (h, hs ++ (h ∷ []))
    | some h ↦ ok (h, hs)
  ]

-- The statements of a model file, with their trimmed words.
pub data Statement : Type 0 where
  declares_host : List ℕ → Statement
  connects : List ℕ → List ℕ → Bool → Bool → Statement
  assigns : List ℕ → List ℕ → List ℕ → Statement
  sets : List ℕ → List ℕ → List ℕ → Statement
  adds_group : List ℕ → List ℕ → Statement

-- The two sides of a separator, trimmed.
pub sides : List ℕ → List ℕ → Result (List ℕ × List ℕ)
sides s sep = do
  before ← str_before s sep
  a ← str_trim before
  after ← str_after s sep
  b ← str_trim after
  ok (a, b)

parse_assign : List ℕ → Result Statement
parse_assign s = do
  before ← str_before s (64 ∷ [])
  group ← str_trim before
  inner ← str_between s (64 ∷ []) (91 ∷ [])
  host ← str_trim inner
  if str_has s (91 ∷ [])
      then (do
        number ← str_between s (91 ∷ []) (93 ∷ [])
        nb ← str_trim number
        ok (assigns group host nb))
      else ok (assigns group host [])

parse_set : List ℕ → Result Statement
parse_set s = do
  both ← sides s (61 ∷ [])
  after ← str_after both.0 (46 ∷ [])
  key ← str_trim after
  before ← str_before both.0 (46 ∷ [])
  group ← str_trim before
  ok (sets group key both.1)

-- `TopologyReader::execute_statement`, up to the call that it makes.
pub parse_statement : List ℕ → Result Statement
parse_statement s =
    if str_starts_with s (host_word ++ (32 ∷ []))
    then (str_after s host_word >>= λ a. str_trim a >>= λ t. ok (declares_host t))
    else if str_has s arrow
    then (sides s arrow >>= λ p. ok (connects p.0 p.1 false false))
    else if str_has s self_arrow
    then (sides s self_arrow >>= λ p. ok (connects p.0 p.1 true false))
    else if str_has s local_arrow
    then (sides s local_arrow >>= λ p. ok (connects p.0 p.1 false true))
    else if str_has s (64 ∷ [])
    then parse_assign s
    else if str_has s (61 ∷ []) && str_has s (46 ∷ [])
    then parse_set s
    else if str_has s (32 ∷ [])
    then (sides s (32 ∷ []) >>= λ p. ok (adds_group p.0 p.1))
    else err unknown_statement

-- What `execute_statement_assign` asks of the topology: to assign as another group is, with a limit, or
-- numbers of nodes on hosts, with a thread; the numbers are bit patterns of `int`s.
pub data Assignment : Type 0 where
  same_as : List ℕ → ℕ → Assignment
  on_hosts : List (List ℕ × (ℕ × ℕ)) → Assignment

abbrev pub minus_one : ℕ
minus_one = 2 ^ 32 - 1

abbrev nodes_on : ℕ → ℕ → DataHost → ℕ
nodes_on nb thread h = if thread == minus_one then nb * h.nb_threads % 2 ^ 32 else nb

abbrev thread_on : ℕ → ℕ
thread_on thread = if leb (2 ^ 31) thread then minus_one else thread

pub on_all_hosts : ℕ → ℕ → List DataHost → List (List ℕ × (ℕ × ℕ))
on_all_hosts nb thread [] = []
on_all_hosts nb thread (h ∷ hs) =
    (h.host_name, (nodes_on nb thread h, thread_on thread)) ∷ on_all_hosts nb thread hs

-- The hosts of an assignment to `host`. A null host is read for its threads alone.
pub allocate : List DataHost → List ℕ → ℕ → ℕ → Result Assignment
allocate hs host nb thread =
    if same_text host (42 ∷ [])
    then ok (on_hosts (on_all_hosts nb thread hs))
    else elim (agml_get_datahost hs host) [
      | none ↦
          if thread == minus_one
          then err bad_access
          else ok (on_hosts ((host, (nb, thread_on thread)) ∷ []))
      | some h ↦ ok (on_hosts ((host, (nodes_on nb thread h, thread_on thread)) ∷ []))
    ]

-- `TopologyReader::execute_statement_assign`
pub execute_statement_assign : Machine → List DataHost → List ℕ → List ℕ → Result Assignment
execute_statement_assign m hs host nb =
    if str_starts_with host (61 ∷ [])
    then (do
      tail ← substr host 1 npos
      ref ← str_trim tail
      ok (same_as ref (if same_text nb [] then minus_one else m.to_int nb)))
    else (let nb_nodes = if same_text nb [] then 1 else m.to_int nb in
        if str_has host (32 ∷ [])
        then (do
          after ← str_after host (32 ∷ [])
          thread ← str_trim after
          before ← str_before host (32 ∷ [])
          name ← str_trim before
          allocate hs name nb_nodes
              (if same_text thread (42 ∷ []) then minus_one else m.to_int thread))
        else allocate hs host nb_nodes (2 ^ 32 - 2))
