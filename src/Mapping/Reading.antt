-- ===== src/Mapping/Reading.antt =====
-- What the conversions of src/mapping.rs let through.
use mathlib.Core.Path.{subst}
use turntf_rs.Prelude.{
  ℕ, suc, ℤ, pos, negsuc, ◌≡◌, ◌≢◌, refl, ap, sym, ◌↔◌, ◌⊎◌, inl, inr, ◌∙◌, List, [], ◌∷◌, Option,
  none, some, ok, ok_inj, true, false, collect, length, All, leb_ℤ, str_eq, eq_iff, ◌==◌, ==_iff,
  Bool, if◌then◌else◌,
}
use turntf_rs.Errors.{Fallible}
use turntf_rs.Types.{
  SessionRef, AttachmentType, channel_manager, channel_writer, channel_subscription, user_blacklist,
  ResolvedSession, ResolvedUserSessions,
}
use turntf_rs.Proto
use turntf_rs.Mapping.Refs.{
  attachment_type_to_proto, attachment_type_from_proto, session_ref_from_proto,
}
use turntf_rs.Mapping.Cluster.{resolved_session_from_proto, resolved_user_sessions_from_proto}
use turntf_rs.Validation.Sound.{IsPositive, leb-IsPositive, bind_ok, guard_ok}

known : (t : AttachmentType) → attachment_type_from_proto (attachment_type_to_proto t) ≡ ok t
unfolding attachment_type_from_proto attachment_type_to_proto
known channel_manager = refl
known channel_writer = refl
known channel_subscription = refl
known user_blacklist = refl

chosen :
    (b : Bool) (x t : AttachmentType) (r : Fallible AttachmentType)
    → (if b then ok x else r) ≡ ok t
    → ((b ≡ true) × (x ≡ t)) ⊎ (r ≡ ok t)
chosen true x t r e = inl (refl, cc e)
chosen false x t r e = inr e

written :
    (n k : ℕ) (x t : AttachmentType)
    → attachment_type_to_proto x ≡ pos k
    → ((n == k) ≡ true) × (x ≡ t)
    → pos n ≡ attachment_type_to_proto t
written n k x t w (same, e) = ap pos ((==_iff n k).0 same) ∙ sym w ∙ ap attachment_type_to_proto e

read_number :
    (n : ℕ) (t : AttachmentType)
    → attachment_type_from_proto (pos n) ≡ ok t
    → pos n ≡ attachment_type_to_proto t
unfolding attachment_type_from_proto attachment_type_to_proto
read_number n t e = elim (chosen (n == 1) channel_manager t _ e) [
  | inl a ↦ written n 1 channel_manager t refl a
  | inr e2 ↦ elim (chosen (n == 2) channel_writer t _ e2) [
    | inl a ↦ written n 2 channel_writer t refl a
    | inr e3 ↦ elim (chosen (n == 3) channel_subscription t _ e3) [
      | inl a ↦ written n 3 channel_subscription t refl a
      | inr e4 ↦ elim (chosen (n == 4) user_blacklist t _ e4) [
        | inl a ↦ written n 4 user_blacklist t refl a
        | inr e5 ↦ absurd (cc e5)
      ]
    ]
  ]
]

-- A number is read as an attachment type exactly if it is the number that the type is written as; the
-- unspecified type and any other number are errors.
pub attachment_type_read :
    (n : ℤ) (t : AttachmentType)
    → (attachment_type_from_proto n ≡ ok t) ↔ (n ≡ attachment_type_to_proto t)
unfolding attachment_type_from_proto
attachment_type_read (pos n) t = (read_number n t, λ e. ap attachment_type_from_proto e ∙ known t)
attachment_type_read (negsuc n) t =
    (λ e. absurd (cc e), λ e. ap attachment_type_from_proto e ∙ known t)

-- A session of the server, whose id may be blank but not empty.
abbrev pub IsServing : SessionRef → Type 0
IsServing s = IsPositive s.serving_node_id × (s.session_id ≢ "")

session-IsServing :
    (value : Option SessionRef) (s : SessionRef) → session_ref_from_proto value ≡ ok s → IsServing s
unfolding session_ref_from_proto
session-IsServing none s e = absurd (cc e)
session-IsServing (some value) s e =
    let (node, rest) = guard_ok (leb_ℤ value.serving_node_id (pos 0)) _ _ s e in
    let (filled, same) = guard_ok (str_eq value.session_id "") _ _ s rest in
    subst IsServing (ok_inj _ _ same) (
      leb-IsPositive value.serving_node_id node,
      λ empty. cc ((eq_iff value.session_id "").1 empty, filled),
    )

resolved-IsServing :
    (item : Proto.ResolvedSession) (r : ResolvedSession)
    → resolved_session_from_proto item ≡ ok r
    → IsServing r.session
unfolding resolved_session_from_proto
resolved-IsServing item r e =
    let (s, read, same) = bind_ok (session_ref_from_proto item.session) _ r e in
    subst IsServing (ap (λ (x : ResolvedSession). x.session) (ok_inj _ r same))
      (session-IsServing item.session s read)

collected :
    (items : List Proto.ResolvedSession) (rs : List ResolvedSession)
    → collect resolved_session_from_proto items ≡ ok rs
    → All (λ (r : ResolvedSession). IsServing r.session) rs × (length rs ≡ length items)
collected [] [] e = (tt, refl)
collected [] (r ∷ rs) e = absurd (cc e)
collected (item ∷ items) rs e =
    let (first, read, later) = bind_ok (resolved_session_from_proto item) _ rs e in
    let (others, read_all, same) = bind_ok (collect resolved_session_from_proto items) _ rs later in
    let (serve, many) = collected items others read_all in
    subst
      (λ xs.
        All (λ (r : ResolvedSession). IsServing r.session) xs × (length xs ≡ suc (length items)))
      (ok_inj _ rs same) ((resolved-IsServing item first read, serve), ap suc many)

-- The sessions that the server reports for a user are read all or not at all: when the answer is read,
-- there are as many as it lists, and each is on a node with a positive number and has an id that is
-- not empty.
pub resolved_sessions-IsServing :
    (m : Proto.ResolveUserSessionsResponse) (r : ResolvedUserSessions)
    → resolved_user_sessions_from_proto m ≡ ok r
    → All (λ (s : ResolvedSession). IsServing s.session) r.sessions
      × (length r.sessions ≡ length m.items)
unfolding resolved_user_sessions_from_proto
resolved_sessions-IsServing m r e =
    let (sessions, read, same) = bind_ok (collect resolved_session_from_proto m.items) _ r e in
    subst
      (λ xs. All (λ (s : ResolvedSession). IsServing s.session) xs × (length xs ≡ length m.items))
      (ap (λ (x : ResolvedUserSessions). x.sessions) (ok_inj _ r same))
      (collected m.items sessions read)
