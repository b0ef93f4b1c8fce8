-- ===== src/ToolEvents/Detect/Seen.antt =====
-- Which panes the detector keeps.
use tmuxatlas.Common.{
  ℕ, ◌≡◌, ◌==◌, refl, ap, Bool, true, false, not, ◌&&◌, ◌||◌, List, [], ◌∷◌, Option, none, some,
  arith, Text, same_text, is_empty, Dict, get, keep, has, Option-cases, Bool-cases, inl, inr,
  get-put, holds,
}
use tmuxatlas.ToolEvents.{PaneKey, PaneKey-discrete, pane_key_key, prune}
use tmuxatlas.ToolEvents.Detect.{
  PaneInfo, Detector, Scan, pane_info_key, scan_pane, scan_panes, detect,
}

module _ (agent : ℕ → Option Text) where
  abbrev pub is_found : Option Text → Bool
  is_found none = false
  is_found (some tool) = true

  -- A pane that stands at the key, which has no host, has a process and a session, and an agent below
  -- the process.
  abbrev pub runs_agent : PaneKey → PaneInfo → Bool
  runs_agent key p =
      is_empty key.host
      && same_text p.session key.session
      && p.window == key.window
      && same_text p.pane_id key.pane
      && not (p.pid == 0)
      && not (is_empty p.session)
      && is_found (agent p.pid)

  unfoldable pub some_runs_agent : PaneKey → List PaneInfo → Bool
  some_runs_agent key [] = false
  some_runs_agent key (p ∷ panes) = runs_agent key p || some_runs_agent key panes

  is_empty_nil : (s : Text) → is_empty s ≡ true → s ≡ []
  is_empty_nil [] h = refl
  is_empty_nil (c ∷ s) h = absurd (ground arith)

  key_fields :
      (p : PaneInfo) (key : PaneKey)
      → key.host ≡ []
      → p.session ≡ key.session
      → p.window ≡ key.window
      → p.pane_id ≡ key.pane
      → pane_info_key p ≡ key
  key_fields p key a b c d = cc (a, b, c, d)

  same_key :
      (p : PaneInfo) (key : PaneKey)
      → holds (PaneKey-discrete (pane_info_key p) key) ≡ (
          is_empty key.host
          && same_text p.session key.session
          && p.window == key.window
          && same_text p.pane_id key.pane)
  same_key p key = elim (PaneKey-discrete (pane_info_key p) key) [
    | yes e ↦
        let a : [] ≡ key.host = ap (λ k. k.host) e in
        let b : p.session ≡ key.session = ap (λ k. k.session) e in
        let c : p.window ≡ key.window = ap (λ k. k.window) e in
        let d : p.pane_id ≡ key.pane = ap (λ k. k.pane) e in ground (arith, ap is_empty a)
    | no n ↦
        elim (Bool-cases (
          is_empty key.host
          && same_text p.session key.session
          && p.window == key.window
          && same_text p.pane_id key.pane)) [
            | inr h ↦ ground arith
            | inl h ↦
                let a : key.host ≡ [] = is_empty_nil key.host (ground arith) in
                absurd (n (key_fields p key a (ground arith) (ground arith) (ground arith)))
          ]
  ]

  has-scan_pane :
      (now : ℕ) (tracked : PaneKey → Bool) (key : PaneKey) (p : PaneInfo) (scan : Scan agent)
      → (has key (scan_pane agent now tracked p scan).1
          ≡ (has key scan.1 || (not (tracked key) && runs_agent key p)))
        × (has key (scan_pane agent now tracked p scan).0.seen
            ≡ (has key scan.0.seen || (not (tracked key) && runs_agent key p)))
  unfolding scan_pane
  has-scan_pane now tracked key p scan = elim (Option-cases (agent p.pid)) [
    | inl e ↦ rw e (ground arith, ground arith)
    | inr (tool, e) ↦
        let same = same_key p key in
        let q : holds (PaneKey-discrete (pane_info_key p) key) ≡ true
            → tracked (pane_info_key p) ≡ tracked key =
          λ h. ap tracked (ground arith) in
        rw e (
          ground (arith, get-put key (pane_info_key p) true scan.1),
          ground (arith, get-put key (pane_info_key p) tool scan.0.seen),
        )
  ]

  has-scan_panes :
      (now : ℕ) (tracked : PaneKey → Bool) (key : PaneKey) (panes : List PaneInfo)
      (scan : Scan agent)
      → (has key (scan_panes agent now tracked panes scan).1
          ≡ (has key scan.1 || (not (tracked key) && some_runs_agent key panes)))
        × (has key (scan_panes agent now tracked panes scan).0.seen
            ≡ (has key scan.0.seen || (not (tracked key) && some_runs_agent key panes)))
  unfolding scan_panes some_runs_agent
  has-scan_panes now tracked key [] scan = (ground arith, ground arith)
  has-scan_panes now tracked key (p ∷ panes) scan =
      let (a, b) = has-scan_panes now tracked key panes (scan_pane agent now tracked p scan) in
      let (c, d) = has-scan_pane now tracked key p scan in (ground arith, ground arith)

  has-keep :
      (q : PaneKey → Bool) (key : PaneKey) (m : Dict PaneKey Text)
      → has key (keep (λ k _. q k) m) ≡ (has key m && q key)
  unfolding get keep
  has-keep q key [] = refl
  has-keep q key ((j, v) ∷ m) = elim (PaneKey-discrete j key) [
    | yes e ↦ ground (arith, ap q e, has-keep q key m)
    | no n ↦ ground (arith, has-keep q key m)
  ]

  -- After a scan of at least one pane, the detector has just the keys without a host that the tracker
  -- had neither an event of the last 24 hours nor a last activity for, where the scan has a pane of that
  -- session, window and id with a process, a session and an agent found below the process: keys of
  -- earlier scans are dropped unless they were found again.
  pub seen_is_present :
      (now : ℕ) (p : PaneInfo) (panes : List PaneInfo) (key : PaneKey) (d : Detector)
      → has key (detect agent now (p ∷ panes) d).seen ≡ (
          not (has key (prune now d.tracker).events)
          && not (has key d.tracker.last_active)
          && some_runs_agent key (p ∷ panes))
  unfolding detect
  seen_is_present now p panes key d =
      let tracked = λ (k : PaneKey).
        has k (prune now d.tracker).events || has k (prune now d.tracker).last_active in
      let known : Detector = record d { tracker = prune now d.tracker } in
      let scan = scan_panes agent now tracked (p ∷ panes) (known, []) in
      let (a, b) = has-scan_panes now tracked key (p ∷ panes) (known, []) in
      let c = has-keep (λ k. has k scan.1) key scan.0.seen in
      let none_yet : has {V = Bool} key [] ≡ false = unfold get in refl in
      unfold prune in ground arith
