-- ===== src/Thread/Exit/Laws.antt =====
-- What a thread that exits leaves behind.
use tweaking_pintos.Prelude.{
  ℕ, ◌<◌, ◌≡◌, ◌≢◌, refl, ◌∙◌, Bool, true, false, ◌&&◌, List, [], ◌∷◌, Option, none, some, arith,
  elem, erase, Distinct, All, ltb, bit_and, ◌==◌, ◌!=◌, if◌then◌else◌, eqb_ne, eqb_refl, Bool-cases,
  inl, inr,
}
use tweaking_pintos.Kernel.{dying, Thread, Kernel, sig_chld, update}
use tweaking_pintos.Kernel.Exec.{ok, branch, store}
use tweaking_pintos.Kernel.Facts.{
  IsThread, keep_live, Live, Runs, load-Live, current-Runs, update-update, update_same, assert_off,
}
use tweaking_pintos.Signal.Pending.Laws.{posted, mallocs_left, post_lem}
use tweaking_pintos.Thread.Exit.{adopt, remove_child, leave_family, withdraw, leave}

-- A child whose parent exits.
abbrev pub orphan : (parent : ℕ) → Option Thread → Option Thread
orphan parent none = none
orphan parent (some t) = some (record t { parent_thread = parent; is_parent = false })

abbrev pub orphaned : (parent : ℕ) → List ℕ → (ℕ → Option Thread) → ℕ → Option Thread
orphaned parent [] m = m
orphaned parent (p ∷ ps) m = orphaned parent ps (update m p (orphan parent (m p)))

adopt_lem :
    (parent : ℕ) (l : List ℕ) (k : Kernel)
    → All (IsThread k) l
    → adopt parent l k ≡ ok tt (record k { mem = orphaned parent l k.mem })
unfolding adopt store
adopt_lem parent [] k h = refl
adopt_lem parent (p ∷ ps) k ((t, live), h) =
    rw (load-Live live, live.holds) (adopt_lem parent ps _ (keep_live ps k p _ h))

orphaned-off :
    (parent : ℕ) (l : List ℕ) (m : ℕ → Option Thread) (q : ℕ)
    → elem q l ≡ false
    → orphaned parent l m q ≡ m q
orphaned-off parent [] m q h = refl
orphaned-off parent (p ∷ ps) m q h =
    orphaned-off parent ps _ q (ground (arith, h)) ∙ ground (arith, h)

erase_absent : (a : ℕ) (l : List ℕ) → elem a l ≡ false → erase a l ≡ l
erase_absent a [] h = refl
erase_absent a (x ∷ xs) h = ground (arith, h, erase_absent a xs)

elem-erase : (a : ℕ) (l : List ℕ) → Distinct l → elem a (erase a l) ≡ false
elem-erase a [] d = refl
elem-erase a (x ∷ xs) d = elim (Bool-cases (a == x)) [
  | inl same ↦ ground (arith, d, same)
  | inr other ↦ ground (arith, other, elem-erase a xs d.1)
]

-- The parent and the children are live, the parent is another thread and no child, nor is the
-- thread itself a child.
pub record Family (k : Kernel) (c u : Thread) : Type 0 where
  pub parent : Live k c.parent_thread u
  pub apart : c.parent_thread ≢ k.current
  pub children : All (IsThread k) c.children_list
  pub off_parent : elem c.parent_thread c.children_list ≡ false
  pub off_self : elem k.current c.children_list ≡ false
  pub siblings : Distinct u.children_list

-- The parent `u` afterwards: a child that counts is off the list, and SIG_CHLD is pending unless the
-- parent ignores it.
abbrev pub tells : Thread → Thread → Bool
tells c u = c.is_parent && bit_and u.sigmask 1 == 0

abbrev pub bereaved : Kernel → (c u : Thread) → Thread
bereaved k c u = record u {
  children_list = if c.is_parent then erase k.current u.children_list else u.children_list;
  pending_signals =
      if tells c u then posted sig_chld c.tid u.pending_signals else u.pending_signals;
}

module _ {k : Kernel} {c u : Thread} (runs : Runs k c) (family : Family k c u) where
  abbrev pub adopted : Kernel
  adopted = record k { mem = orphaned c.parent_thread c.children_list k.mem }

  adopted-Runs : Runs adopted c
  adopted-Runs = record {
    live = record {
      ne_null = runs.live.ne_null;
      holds = orphaned-off _ c.children_list k.mem _ family.off_self ∙ runs.live.holds;
    };
    status = runs.status;
  }

  pub adopted-parent : Live adopted c.parent_thread u
  adopted-parent = record {
    ne_null = family.parent.ne_null;
    holds = orphaned-off _ c.children_list k.mem _ family.off_parent ∙ family.parent.holds;
  }

  abbrev mourning : Kernel
  mourning = record adopted {
    mem = update adopted.mem c.parent_thread (some (bereaved k c u));
    mallocs = if tells c u then mallocs_left sig_chld u.pending_signals k.mallocs else k.mallocs;
  }

  -- The state after one of the calls of list_remove().
  abbrev removed : Thread
  removed = record u { children_list = erase k.current u.children_list }

  abbrev off_list : Kernel
  off_list = record adopted { mem = update adopted.mem c.parent_thread (some removed) }

  off_list-parent : Live off_list c.parent_thread removed
  off_list-parent = record {
    ne_null = family.parent.ne_null;
    holds = rw (eqb_refl c.parent_thread);
  }

  off_list-Runs : Runs off_list c
  off_list-Runs = record {
    live = record {
      ne_null = runs.live.ne_null;
      holds = rw (eqb_ne _ _ family.apart) adopted-Runs.live.holds;
    };
    status = runs.status;
  }

  remove_lem : remove_child c.parent_thread k.current adopted ≡ ok tt off_list
  unfolding remove_child store
  remove_lem = rw (load-Live adopted-parent)

  remove_again : remove_child c.parent_thread k.current off_list ≡ ok tt off_list
  unfolding remove_child store
  remove_again = rw (
    load-Live off_list-parent,
    erase_absent k.current (erase k.current u.children_list)
        (elem-erase k.current u.children_list family.siblings),
    update-update,
  )

  leave_family_lem : 0 < k.mallocs → leave_family c.parent_thread k ≡ ok tt mourning
  unfolding leave_family branch
  leave_family_lem memory = elim (Bool-cases c.is_parent) [
    | inr adoptee ↦ rw (
      current-Runs runs,
      adopt_lem c.parent_thread c.children_list k family.children,
      current-Runs adopted-Runs,
      adoptee,
      load-Live adopted-parent,
      update_same adopted.mem c.parent_thread (some u) adopted-parent.holds,
    )
    | inl child ↦ elim (Bool-cases (bit_and u.sigmask 1 == 0)) [
      | inl heeds ↦ rw (
        current-Runs runs,
        adopt_lem c.parent_thread c.children_list k family.children,
        current-Runs adopted-Runs,
        child,
        remove_lem,
        load-Live off_list-parent,
        heeds,
        remove_again,
        post_lem c.parent_thread sig_chld off_list-Runs off_list-parent memory,
        update-update,
      )
      | inr ignores ↦ rw (
        current-Runs runs,
        adopt_lem c.parent_thread c.children_list k family.children,
        current-Runs adopted-Runs,
        child,
        remove_lem,
        load-Live off_list-parent,
        ignores,
      )
    ]
  ]

  mourning-Runs : Runs mourning c
  mourning-Runs = record {
    live = record {
      ne_null = runs.live.ne_null;
      holds = rw (eqb_ne _ _ family.apart) adopted-Runs.live.holds;
    };
    status = runs.status;
  }

  -- The kernel when the thread calls schedule() for the last time.
  abbrev pub gone : Kernel
  gone = record mourning {
    intr_on = false;
    all_list = erase k.current k.all_list;
    mem = update mourning.mem k.current (some (record c { status = dying }));
  }

  pub leave_lem :
      0 < c.tid → c.tid ≢ 1 → 0 < k.mallocs → k.intr_context ≡ false → leave k ≡ ok tt gone
  unfolding leave withdraw branch store
  leave_lem positive other memory outside =
      let child : (ltb 0 c.tid && c.tid != 1) ≡ true = ground (arith, positive, other) in
      rw (
        current-Runs runs,
        child,
        leave_family_lem memory,
        assert_off k.intr_context mourning outside,
        current-Runs mourning-Runs,
      )
