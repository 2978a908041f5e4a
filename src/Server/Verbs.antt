-- ===== src/Server/Verbs.antt =====
-- `do_type`, `do_sig`, `do_members` and `do_inh` of server.rs. A `HashSet` is the list of what was
-- put into it, the last first.
use scry.Prelude.{
  ℕ, List, [], ◌∷◌, Bool, true, false, not, ◌&&◌, ◌||◌, leb, ◌==◌, if◌then◌else◌, length, Option,
  some, none,
}
use scry.Format.Kind
use scry.Kythe.State.{push}
use scry.Server.Queries.{
  Queries, PathFilter, logical_key, def_loc_str, display_name, name_of, sym_passes, meta_or,
}
use scry.Server.Reply.{
  kind_str, lang_str, RenderedHit, RenderedReply, MemberHit, MembersReply, InhHit, InhReply,
}
use scry.Sorted.{contains}
use scry.Text.Str.{ascii, same, strip_prefix}

abbrev pub substr_agg_cap : ℕ
substr_agg_cap = 64

-- `limit.max(SUBSTR_AGG_CAP)`
abbrev pub at_least_cap : ℕ → ℕ
at_least_cap limit = if leb substr_agg_cap limit then limit else substr_agg_cap

unfoldable pub has_pair : List ℕ → List ℕ → List (List ℕ × List ℕ) → Bool
unfolding same
has_pair a b [] = false
has_pair a b ((c, d) ∷ seen) = (same c a && same d b) || has_pair a b seen

abbrev pub same_sig : Option (List ℕ) → Option (List ℕ) → Bool
same_sig none none = true
same_sig none (some b) = false
same_sig (some a) none = false
same_sig (some a) (some b) = same a b

abbrev pub MemberKey : Type 0
MemberKey = List ℕ × List ℕ × Option (List ℕ)

unfoldable pub has_member_key : MemberKey → List MemberKey → Bool
unfolding same
has_member_key (n, k, s) [] = false
has_member_key (n, k, s) ((n', k', s') ∷ keys) =
    (same n' n && (same k' k && same_sig s' s)) || has_member_key (n, k, s) keys

pub record MembersDone : Type 0 where
  pub container : List ℕ
  pub members : List MemberHit
  pub seen : List ℕ
  pub rendered : List MemberKey
  pub full : Bool

module _ (ix : Queries) where
  unfoldable pub capped_syms : List ℕ → Bool → ℕ → List ℕ
  capped_syms name substr limit =
      if substr then ix.syms_matching_substring name (at_least_cap limit) else ix.syms_for_name name

  -- The loop of `do_type` and `do_sig`, with the rendering of a symbol.
  unfoldable pub rendered_loop :
      (ℕ → Option (List ℕ))
      → ℕ
      → List ℕ
      → List RenderedHit
      → List (List ℕ × List ℕ)
      → List RenderedHit
  unfolding kind_str lang_str logical_key has_pair
  rendered_loop of limit [] hits seen = hits
  rendered_loop of limit (sym ∷ syms) hits seen = elim (of sym) [
    | none ↦ rendered_loop of limit syms hits seen
    | some text ↦
        let (name, kind, lang) = meta_or (ix.sym_meta sym) in
        let key = logical_key name in
        let hit : RenderedHit = record {
          name = name;
          kind = kind_str kind;
          lang = lang_str lang;
          rendered = text;
        } in
        let repeated = rendered_loop of limit syms hits seen in
        let next = rendered_loop of limit syms (push hit hits) ((key, text) ∷ seen) in
        if has_pair key text seen
        then repeated
        else if leb limit (length (push hit hits))
        then push hit hits
        else next
  ]

  unfoldable pub do_rendered : (ℕ → Option (List ℕ)) → List ℕ → Bool → ℕ → RenderedReply
  unfolding capped_syms rendered_loop
  do_rendered of name substr limit =
      let hits = rendered_loop of limit (capped_syms name substr limit) [] [] in
      record { hits = hits; total = length hits; truncated = leb limit (length hits) }

  unfoldable pub do_type : List ℕ → Bool → ℕ → RenderedReply
  unfolding do_rendered
  do_type name substr limit = do_rendered ix.type_of name substr limit

  unfoldable pub do_sig : List ℕ → Bool → ℕ → RenderedReply
  unfolding do_rendered
  do_sig name substr limit = do_rendered ix.sig_of name substr limit

  abbrev pub is_container : ℕ → Bool
  is_container k = (k == Kind.type) || (k == Kind.package')

  -- A child that was not seen and whose rendering is new.
  unfoldable pub add_member : ℕ → ℕ → MembersDone → MembersDone
  unfolding kind_str lang_str logical_key has_member_key contains
  add_member limit child st =
      let (name, kind, lang) = meta_or (ix.sym_meta child) in
      let sig = ix.sig_of child in
      let key : MemberKey = (logical_key name, kind_str kind, sig) in
      let hit : MemberHit = record {
        name = name;
        kind = kind_str kind;
        lang = lang_str lang;
        sig = sig;
      } in
      let met : MembersDone = record st { seen = child ∷ st.seen } in
      if contains child st.seen
      then st
      else if has_member_key key st.rendered
      then met
      else record met {
        members = push hit st.members;
        rendered = key ∷ st.rendered;
        full = leb limit (length (push hit st.members));
      }

  -- `break 'outer` at the limit: from there on the state stays.
  unfoldable pub add_members : ℕ → List ℕ → MembersDone → MembersDone
  unfolding add_member
  add_members limit [] st = st
  add_members limit (child ∷ children) st =
      add_members limit children (if st.full then st else add_member limit child st)

  unfoldable pub add_containers : ℕ → List ℕ → MembersDone → MembersDone
  unfolding add_members
  add_containers limit [] st = st
  add_containers limit (sym ∷ syms) st =
      let (name, kind, lang) = meta_or (ix.sym_meta sym) in
      let inside = add_members limit (ix.members sym) (record st { container = name }) in
      add_containers limit syms
        (if st.full then st else if not (is_container kind) then st else inside)

  unfoldable pub do_members : List ℕ → Bool → ℕ → MembersReply
  unfolding capped_syms add_containers
  do_members name substr limit =
      let st =
        add_containers limit (capped_syms name substr limit)
          (record { container = name; members = []; seen = []; rendered = []; full = false }) in
      record {
        container = st.container;
        members = st.members;
        total = length st.members;
        truncated = st.full;
      }

  -- `groups` with `order`: the members of each logical key, in the order of the first ones.
  unfoldable pub add_to_group : List ℕ → ℕ → List (List ℕ × List ℕ) → List (List ℕ × List ℕ)
  unfolding same
  add_to_group key r [] = (key, r ∷ []) ∷ []
  add_to_group key r ((k, rs) ∷ groups) =
      let rest = add_to_group key r groups in
      if same k key then (k, push r rs) ∷ groups else (k, rs) ∷ rest

  unfoldable pub add_related :
      PathFilter → List ℕ → List ℕ × List (List ℕ × List ℕ) → List ℕ × List (List ℕ × List ℕ)
  unfolding sym_passes logical_key name_of add_to_group contains
  add_related filt [] s = s
  add_related filt (r ∷ rs) (seen, groups) =
      let added = add_to_group (logical_key (name_of ix r)) r groups in
      add_related filt rs (
        if contains r seen
        then (seen, groups)
        else if not (sym_passes ix filt r)
        then (r ∷ seen, groups)
        else (r ∷ seen, added))

  unfoldable pub related_of :
      Bool → PathFilter → List ℕ → List ℕ × List (List ℕ × List ℕ) → List ℕ × List (List ℕ × List ℕ)
  unfolding add_related
  related_of sub filt [] s = s
  related_of sub filt (sym ∷ syms) s =
      related_of sub filt syms
        (add_related filt (if sub then ix.inherited_by sym else ix.inherits_of sym) s)

  -- The first member that has a place, and the first with a readable name, or the first.
  unfoldable pub first_def : List ℕ → Option (List ℕ)
  unfolding def_loc_str
  first_def [] = none
  first_def (m ∷ members) =
      let rest = first_def members in
      elim (def_loc_str ix m) [ some place ↦ some place | none ↦ rest ]

  unfoldable pub rep_of : ℕ → List ℕ → ℕ
  unfolding name_of strip_prefix
  rep_of first [] = first
  rep_of first (m ∷ members) =
      let rest = rep_of first members in
      elim (strip_prefix (ascii "kythe:") (name_of ix m)) [ none ↦ m | some _ ↦ rest ]

  unfoldable pub inh_hits : List (List ℕ × List ℕ) → List InhHit
  unfolding first_def rep_of display_name name_of
  inh_hits [] = []
  inh_hits ((key, []) ∷ groups) = inh_hits groups
  inh_hits ((key, m ∷ members) ∷ groups) =
      let rep = rep_of m (m ∷ members) in
      record { name = display_name ix rep (name_of ix rep); def = first_def (m ∷ members) }
      ∷ inh_hits groups

  unfoldable pub do_inh : List ℕ → Bool → ℕ → Bool → PathFilter → InhReply
  unfolding related_of inh_hits
  do_inh name substr limit sub filt =
      let syms = if substr then ix.syms_matching_substring name limit else ix.syms_for_name name in
      let hits = inh_hits (related_of sub filt syms ([], [])).1 in
      record { hits = hits; total = length hits }
