-- ===== src/Evaluation/Gcp/Registry/Accounts.antt =====
-- Every new row is counted once: in the buffer, or in the registry after a flush.
use berlue.Base.{
  ℕ, ◌+◌, ◌<◌, ◌≡◌, refl, Bool, true, false, ◌⊎◌, inl, inr, String, [], Eq, arith, Bool-cases, ◌==◌,
  string_eq, leb,
}
use berlue.Base.Act.{Runs}
use berlue.Evaluation.Gcp.{
  Dict, Fields, Python, Name, Google, GcpState, running_on_cloud_run, registry_flush_every,
}
use berlue.Evaluation.Gcp.Codec.{IsPython}
use berlue.Evaluation.Gcp.Firestore.{Docs, IsFirestore, name_eq}
use berlue.Evaluation.Gcp.Documents.{Holds}
use berlue.Evaluation.Gcp.Registry.{
  count_row, total, registry_collection, flush_registry, register_new_row,
}
use berlue.Evaluation.Gcp.Registry.Entries.{registered, IsRegistry, IsScope, AreScopes}
use berlue.Evaluation.Gcp.Registry.Flushed.{send_all_lem}
use berlue.Evaluation.Gcp.Registry.Counts.{counts_for, buffered, buffered-count_row, All-count_row}

leb-false : (a b : ℕ) → leb a b ≡ false → b < a
leb-false a b h = ground arith

module _ {F W : Type 0} ⦃e : Eq F⦄ (py : Python F) (hash : String → String) (g : Google F W)
    (accepts : W → String → Bool) (docs : W → Docs (Fields F)) (python : IsPython py)
    (fs : IsFirestore py g accepts docs)
    (configured : (running_on_cloud_run g ≡ true) ⊎ ((g.service_account == "") ≡ false)) where
  -- The store and the documents `d` of Firestore, between two calls.
  pub record IsSound (s : GcpState F W) (d : Docs (Dict F)) : Type 0 where
    pub holds : Holds py (docs s.world) d
    pub entries : IsRegistry d
    pub scopes : AreScopes s.registry_buffer
    pub bounded : total s.registry_buffer < registry_flush_every

  -- The rows that are counted for the document `i` of the registry, sent or not.
  abbrev pub accounted : String → GcpState F W → Docs (Dict F) → ℕ
  accounted i s d = registered i d + buffered py hash i s.registry_buffer

  -- A call that leaves the documents `d1`, the registry aside, and counts `count` more rows.
  pub record Accounts (s s' : GcpState F W) (d d1 : Docs (Dict F)) (count : String → ℕ)
      : Type 0 where
    pub after : Docs (Dict F)
    pub sound : IsSound s' after
    pub counted : (i : String) → accounted i s' after ≡ accounted i s d + count i
    pub others : (m : Name) → (registry_collection == m.collection) ≡ false → after m ≡ d1 m

  flush_lem :
      (s : GcpState F W) (d : Docs (Dict F))
      → Holds py (docs s.world) d
      → IsRegistry d
      → AreScopes s.registry_buffer
      → Runs
          (flush_registry py hash g)
          s
          (λ s' u. (s'.registry_buffer ≡ []) × Accounts s s' d d (λ i. 0))
  unfolding flush_registry buffered total
  flush_lem s d h reg scopes =
      let s1 = record s { registry_buffer = [] } in
      let r =
        send_all_lem py hash g accepts docs python fs configured s.registry_buffer s1 d h reg
          scopes in
      let q = r.holds in
      let empty : r.after.registry_buffer ≡ [] = q.left_docs.buffer in
      record {
        after = r.after;
        value = r.value;
        returned = r.returned;
        holds = (
          empty,
          record {
            after = q.after;
            sound = record {
              holds = q.left_docs.holds;
              entries = q.entries;
              scopes = rw empty tt;
              bounded = rw empty (omega arith);
            };
            counted = λ i. rw empty (omega (arith, q.counted i));
            others = q.others;
          },
        );
      }

  -- A flush leaves nothing in the buffer, and loses no count.
  pub flush_registry_lem :
      (s : GcpState F W) (d : Docs (Dict F))
      → IsSound s d
      → Runs
          (flush_registry py hash g)
          s
          (λ s' u. (s'.registry_buffer ≡ []) × Accounts s s' d d (λ i. 0))
  flush_registry_lem s d h = flush_lem s d h.holds h.entries h.scopes

  -- A new row is counted once, and fewer than twenty rows are left in the buffer.
  pub register_new_row_lem :
      (table : String) (scope : Dict F) (s : GcpState F W) (d : Docs (Dict F))
      → IsSound s d
      → IsScope (table, scope)
      → Runs
          (register_new_row py hash g table scope)
          s
          (λ s' u. Accounts s s' d d (λ i. counts_for py hash i (table, scope) 1))
  unfolding register_new_row
  register_new_row_lem table scope s d h is_scope =
      let b = count_row (table, scope) s.registry_buffer in
      let s1 = record s { registry_buffer = b } in
      let scopes1 =
        All-count_row py hash IsScope (table, scope) s.registry_buffer is_scope h.scopes in
      elim (Bool-cases (leb registry_flush_every (total b))) [
        | inl full ↦
            let r = flush_lem s1 d h.holds h.entries scopes1 in
            record {
              after = r.after;
              value = r.value;
              returned = rw full r.returned;
              holds = record {
                after = r.holds.1.after;
                sound = r.holds.1.sound;
                counted = λ i. omega (
                  arith,
                  r.holds.1.counted i,
                  buffered-count_row py hash i (table, scope) s.registry_buffer,
                );
                others = r.holds.1.others;
              };
            }
        | inr room ↦ record {
          after = s1;
          value = tt;
          returned = rw room refl;
          holds = record {
            after = d;
            sound = record {
              holds = h.holds;
              entries = h.entries;
              scopes = scopes1;
              bounded = leb-false registry_flush_every (total b) room;
            };
            counted =
                λ i. omega (arith, buffered-count_row py hash i (table, scope) s.registry_buffer);
            others = λ m o. refl;
          };
        }
      ]
