-- ===== src/Agent/Cni/Overlay.antt =====
-- The overlay mode that `DetectCNI` reports.
use smtx_lab.Prelude.{
  ◌≡◌, refl, ◌≢◌, ◌⊎◌, inl, inr, Bool, true, false, not, List, [], ◌∷◌, arith, if◌then◌else◌, ◌==◌,
  eq_iff, nat_eq, text_eq, Bool-cases, if_both, All, All-append, Text, lit, is_empty,
}
use smtx_lab.Strings.{join}
use smtx_lab.Agent.Types.{CniSnapshot, CalicoSnapshot}
use smtx_lab.Agent.Cni.{add_mode, Host, overlay_modes, finalize_calico_overlay, settle, detect_cni}
use smtx_lab.Agent.Cni.Detection.{inspected-IsDetected, detect_cni-eq-settle}

-- Both overlay fields, for a type.
record OverlayOf (s : CniSnapshot) : Type 0 where
  calico : s.type ≡ lit "calico" → (s.overlay_mode ≡ s.calico.overlay_mode) × (s.overlay_mode ≢ [])
  other : s.type ≢ lit "calico" → s.overlay_mode ≡ []

join_ne : (p : Text) (ps : List Text) (sep : Text) → p ≢ [] → join (p ∷ ps) sep ≢ []
unfolding join
join_ne [] ps sep ne e = ne refl
join_ne (c ∷ p) [] sep ne e = cc
join_ne (c ∷ p) (q ∷ ps) sep ne e = cc

abbrev IsNamed : Text → Type 0
IsNamed p = p ≢ []

add_mode-IsNamed :
    (name : Text)
    → name ≢ []
    → (b : Bool) (modes : List Text) → All IsNamed modes
    → All IsNamed (add_mode b name modes)
unfolding add_mode
add_mode-IsNamed name ne true modes h = All-append IsNamed modes (name ∷ []) h (ne, tt)
add_mode-IsNamed name ne false modes h = h

lit_ne : (lit "ipip" ≢ []) × (lit "vxlan" ≢ []) × (lit "wireguard" ≢ []) × (lit "none-or-bgp" ≢ [])
unfolding lit
lit_ne = (λ e. cc, λ e. cc, λ e. cc, λ e. cc)

overlay_modes-IsNamed : (c : CalicoSnapshot) → All IsNamed (overlay_modes c)
unfolding overlay_modes
overlay_modes-IsNamed c =
    add_mode-IsNamed (lit "wireguard") lit_ne.2 _ _
      (add_mode-IsNamed (lit "vxlan") lit_ne.1 _ _ (add_mode-IsNamed (lit "ipip") lit_ne.0 _ [] tt))

shown : List Text → List Text
shown modes = if is_empty modes then lit "none-or-bgp" ∷ [] else modes

join-shown : (modes : List Text) → All IsNamed modes → join (shown modes) (lit "+") ≢ []
unfolding shown is_empty
join-shown [] h = join_ne (lit "none-or-bgp") [] (lit "+") lit_ne.3
join-shown (m ∷ ms) (ne, h) = join_ne m ms (lit "+") ne

finalize-OverlayOf : (s : CniSnapshot) → s.overlay_mode ≡ [] → OverlayOf (finalize_calico_overlay s)
unfolding finalize_calico_overlay shown
finalize-OverlayOf s none_yet =
    if_both OverlayOf (not (s.type == lit "calico"))
      (λ e. record { calico = λ p. absurd (not_calico e p); other = λ _. none_yet })
      (λ e. record {
        calico = λ _. (refl, join-shown (overlay_modes s.calico) (overlay_modes-IsNamed s.calico));
        other = λ ne. absurd (ne ((eq_iff s.type (lit "calico")).0 (ground arith)));
      })
  where
    not_calico : not (s.type == lit "calico") ≡ true → s.type ≡ lit "calico" → ⊥
    not_calico e p = ground (arith, eq_iff s.type (lit "calico"))

by_type :
    {P R Q : Type 0} (t : Text)
    → (t ≡ lit "calico" → P × R)
    → (t ≢ lit "calico" → Q)
    → ((t ≡ lit "calico") × P × R) ⊎ ((t ≢ lit "calico") × Q)
by_type t f g = elim (Bool-cases (t == lit "calico")) [
  | inl e ↦ let q = (eq_iff t (lit "calico")).0 e in inl (q, (f q).0, (f q).1)
  | inr e ↦
      let n : t ≢ lit "calico" = λ q. ground (arith, e, eq_iff t (lit "calico"), q) in inr (n, g n)
]

-- The type is "calico", and the overlay mode is then named and the same in both of its fields, or the
-- type is another, and no overlay mode is reported beside it.
pub detect_cni_overlay :
    (host : Host) (config_dirs : List Text)
    → let r = (detect_cni host config_dirs).0 in
      ((r.type ≡ lit "calico") × (r.overlay_mode ≡ r.calico.overlay_mode) × (r.overlay_mode ≢ []))
      ⊎ ((r.type ≢ lit "calico") × (r.overlay_mode ≡ []))
unfolding settle
detect_cni_overlay host config_dirs =
    let h = finalize-OverlayOf _ (inspected-IsDetected host config_dirs).overlay in
    rw (detect_cni-eq-settle host config_dirs) (by_type _ h.calico h.other)
