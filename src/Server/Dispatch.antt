-- ===== src/Server/Dispatch.antt =====
-- `Request` and `dispatch` of server.rs. The arguments of a request are the fields of the variant in
-- their order.
use scry.Prelude.{ℕ, ◌-◌, ◌^◌, List, Bool, true, false, Option, none}
use scry.Format.Role
use scry.Server.Graphs.{do_callgraph, do_inheritance}
use scry.Server.Queries.{Queries, PathFilter}
use scry.Server.Reply.{XrefsReply, RenderedReply, MembersReply, InhReply, ForestReply}
use scry.Server.Verbs.{at_least_cap, do_type, do_sig, do_members, do_inh}
use scry.Server.Xrefs.{do_xrefs}

abbrev pub Filter : Type 0
Filter = Option (List ℕ)

pub data Request : Type 0 where
  stat : Request
  def' : List ℕ → Bool → Bool → ℕ → Filter → Filter → Request
  type' : List ℕ → Bool → ℕ → Request
  sig : List ℕ → Bool → ℕ → Request
  members : List ℕ → Bool → ℕ → Request
  ref' : List ℕ → Bool → Bool → ℕ → ℕ → Filter → Filter → Filter → Request
  callers : List ℕ → Bool → Bool → ℕ → ℕ → Filter → Filter → Filter → Request
  super : List ℕ → Bool → ℕ → Filter → Filter → Request
  sub : List ℕ → Bool → ℕ → Filter → Filter → Request
  callgraph : List ℕ → List ℕ → ℕ → ℕ → Bool → ℕ → Filter → Filter → Filter → Request
  inheritance : List ℕ → List ℕ → ℕ → ℕ → Bool → ℕ → Filter → Filter → Filter → Request

pub data Reply : Type 0 where
  stat_reply : ℕ → ℕ → ℕ → ℕ → ℕ → Reply
  xrefs_reply : XrefsReply → Reply
  type_reply : RenderedReply → Reply
  sig_reply : RenderedReply → Reply
  members_reply : MembersReply → Reply
  inh_reply : InhReply → Reply
  callgraph_reply : ForestReply → Reply
  inheritance_reply : ForestReply → Reply

-- `usize::MAX`
abbrev pub usize_max : ℕ
usize_max = 2 ^ 64 - 1

abbrev pub path_filter : Filter → Filter → Filter → PathFilter
path_filter in_ not_in def_in = record { in_ = in_; not_in = not_in; def_in = def_in }

unfoldable pub dispatch : Queries → Request → Reply
unfolding do_xrefs do_type do_sig do_members do_inh do_callgraph do_inheritance
dispatch ix stat = stat_reply ix.n_xrefs ix.n_syms ix.n_files ix.n_inh ix.n_calls
dispatch ix (def' name substr ignore_case limit in_ not_in) = xrefs_reply (
    do_xrefs ix (path_filter in_ not_in none) name substr ignore_case limit (Role.decl, Role.def)
      usize_max true)
dispatch ix (type' name substr limit) = type_reply (do_type ix name substr limit)
dispatch ix (sig name substr limit) = sig_reply (do_sig ix name substr limit)
dispatch ix (members name substr limit) = members_reply (do_members ix name substr limit)
dispatch ix (ref' name substr ignore_case limit max_hits in_ not_in def_in) = xrefs_reply (
    do_xrefs ix (path_filter in_ not_in def_in) name substr ignore_case (at_least_cap limit)
      (0, 255) max_hits false)
dispatch ix (callers name substr ignore_case limit max_hits in_ not_in def_in) = xrefs_reply (
    do_xrefs ix (path_filter in_ not_in def_in) name substr ignore_case (at_least_cap limit)
      (Role.call, Role.call) max_hits false)
dispatch ix (super name substr limit in_ not_in) =
    inh_reply (do_inh ix name substr limit false (path_filter in_ not_in none))
dispatch ix (sub name substr limit in_ not_in) =
    inh_reply (do_inh ix name substr limit true (path_filter in_ not_in none))
dispatch ix (callgraph name direction depth max_syms substr root_limit in_ not_in def_in) =
    callgraph_reply (
      do_callgraph ix name direction depth max_syms substr root_limit
        (path_filter in_ not_in def_in))
dispatch ix (inheritance name direction depth max_syms substr root_limit in_ not_in def_in) =
    inheritance_reply (
      do_inheritance ix name direction depth max_syms substr root_limit
        (path_filter in_ not_in def_in))
