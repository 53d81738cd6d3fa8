-- ===== src/Crawler/System/Save/Resumes.antt =====
-- A crawl that resumes has the two stacks that were saved (src/crawler.rs).
use bip110_crawler.Common.{
  ℕ, ◌≡◌, refl, sym, ap, ◌∙◌, true, false, List, [], ◌∷◌, ◌++◌, append-nil, append_assoc, Option,
  some, list_eq, All, All-append, Bool-cases, Option-cases, inl, inr, Text,
}
use mathlib.Core.Path.{ap₂}
use mathlib.Core.List.{reverse, reverse-reverse, reverse-append}
use bip110_crawler.P2p.Peer.{Peer, is_onion}
use bip110_crawler.Node.{NodeInfo}
use bip110_crawler.Crawler.{Task, Frontier, Shared}
use bip110_crawler.Crawler.System.Start.{
  empty_shared, push_task, restore_nodes, restore_task, restore_frontier, resume,
}
use bip110_crawler.Crawler.System.Save.{own_node, saved_tasks, save_state}

-- Pushed one after another.
abbrev push_all : List Task → Frontier → Frontier
push_all [] f = f
push_all (t ∷ ts) f = push_all ts (push_task t f)

push_all-append :
    (xs ys : List Task) (f : Frontier) → push_all (xs ++ ys) f ≡ push_all ys (push_all xs f)
push_all-append [] ys f = refl
push_all-append (x ∷ xs) ys f = push_all-append xs ys (push_task x f)

push_all-clearnet :
    (ts : List Task) (f : Frontier)
    → All (λ (t : Task). is_onion t.0 ≡ false) ts
    → push_all ts f ≡ record f { clearnet = reverse ts ++ f.clearnet }
unfolding push_task
push_all-clearnet [] f a = refl
push_all-clearnet ((p, d) ∷ ts) f (e, a) =
    rw (e, push_task)
      (push_all-clearnet ts (record f { clearnet = (p, d) ∷ f.clearnet }) a
        ∙ ap (λ c. record f { clearnet = c })
            (sym (append_assoc (reverse ts) ((p, d) ∷ []) f.clearnet)
              ∙ ap (λ r. r ++ f.clearnet) (sym (reverse-append ((p, d) ∷ []) ts))))

push_all-onion :
    (ts : List Task) (f : Frontier)
    → All (λ (t : Task). is_onion t.0 ≡ true) ts
    → push_all ts f ≡ record f { onion = reverse ts ++ f.onion }
unfolding push_task
push_all-onion [] f a = refl
push_all-onion ((p, d) ∷ ts) f (e, a) =
    rw (e, push_task)
      (push_all-onion ts (record f { onion = (p, d) ∷ f.onion }) a
        ∙ ap (λ c. record f { onion = c })
            (sym (append_assoc (reverse ts) ((p, d) ∷ []) f.onion)
              ∙ ap (λ r. r ++ f.onion) (sym (reverse-append ((p, d) ∷ []) ts))))

All-reverse : (P : Task → Type 0) (xs : List Task) → All P xs → All P (reverse xs)
All-reverse P [] a = tt
All-reverse P (x ∷ xs) (h, a) =
    rw (reverse-append (x ∷ []) xs)
      (All-append P (reverse xs) (x ∷ []) (All-reverse P xs a) (h, tt))

restore_task-push :
    (p : Peer) (d : ℕ) (s : Shared)
    → (restore_task true p d s).frontier ≡ push_task (p, d) s.frontier
unfolding restore_task
restore_task-push p d s = elim (Bool-cases (is_onion p)) [ inl e ↦ rw e refl | inr e ↦ rw e refl ]

abbrev the_frontier : List Task → List Task → Frontier
the_frontier c o = record { clearnet = c; onion = o; active = 0 }

module _ (show : Peer → Text) (parse : Text → Option Peer) where
  -- A task whose peer is read back from its text, and is not our own node.
  abbrev pub Legible : Task → Type 0
  Legible t = (parse (show t.0) ≡ some t.0) × (list_eq (show t.0) own_node ≡ false)

  restored :
      (tasks : List Task) (s : Shared)
      → All Legible tasks
      → (restore_frontier parse true (saved_tasks show tasks) s).frontier
        ≡ push_all tasks s.frontier
  unfolding restore_frontier restore_task saved_tasks
  restored [] s a = refl
  restored ((p, d) ∷ tasks) s ((e, o), a) =
      rw (o, saved_tasks, restore_frontier, e)
        (restored tasks (restore_task true p d s) a ∙ ap (push_all tasks) (restore_task-push p d s))

  restored_nodes :
      (nodes : List NodeInfo) (s : Shared) → (restore_nodes parse nodes s).frontier ≡ s.frontier
  unfolding restore_nodes
  restored_nodes [] s = refl
  restored_nodes (n ∷ nodes) s = elim (Option-cases (parse n.addr)) [
    | inl e ↦ rw (e, restore_nodes) (restored_nodes nodes s)
    | inr (p, e) ↦ rw (e, restore_nodes) (restored_nodes nodes _)
  ]

-- A crawl that is resumed, with a proxy, from what was saved has exactly the two stacks of the state
-- that was saved, in their order, and no busy worker; for peers that are read back from their texts
-- and are not our own node, on the stacks of their kind.
pub resume-save_state :
    (show : Peer → Text) (parse : Text → Option Peer) (s : Shared)
    → All (Legible show parse) s.frontier.clearnet
    → All (Legible show parse) s.frontier.onion
    → All (λ (t : Task). is_onion t.0 ≡ false) s.frontier.clearnet
    → All (λ (t : Task). is_onion t.0 ≡ true) s.frontier.onion
    → (resume parse true (some (save_state show s)) empty_shared).frontier
      ≡ record s.frontier { active = 0 }
unfolding resume save_state
resume-save_state show parse s lc lo kc ko =
    let c = s.frontier.clearnet in
    let o = s.frontier.onion in
    let st = save_state show s in
    let s0 = restore_nodes parse st.nodes empty_shared in
    let f0 = empty_shared.frontier in
    let legible =
      All-append (Legible show parse) (reverse c) (reverse o)
        (All-reverse (Legible show parse) c lc) (All-reverse (Legible show parse) o lo) in
    restored show parse (reverse c ++ reverse o) s0 legible
    ∙ ap (push_all (reverse c ++ reverse o)) (restored_nodes show parse st.nodes empty_shared)
    ∙ push_all-append (reverse c) (reverse o) f0
    ∙ ap (push_all (reverse o)) (push_all-clearnet (reverse c) f0 (All-reverse _ c kc))
    ∙ push_all-onion (reverse o) (record f0 { clearnet = reverse (reverse c) ++ [] })
        (All-reverse _ o ko)
    ∙ ap₂ (λ x y. the_frontier x y) (append-nil (reverse (reverse c)) ∙ reverse-reverse c)
        (append-nil (reverse (reverse o)) ∙ reverse-reverse o)
