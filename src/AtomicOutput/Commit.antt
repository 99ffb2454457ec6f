-- ===== src/AtomicOutput/Commit.antt =====
-- src/atomic_output.hpp `commit`: the body is published whole or not at all.
use bengal_market.AtomicOutput.{
  FileSystem, Output, commit, directory_of, on_fd, on_world, part_of, publish, sync_directory,
  sync_parent,
}
use bengal_market.AtomicOutput.Posix.{IsPosix}
use bengal_market.AtomicOutput.Write.{IsWriting, eq_text-part, eq_text-part_left, eq_text_refl}
use bengal_market.Base.{
  Bool, Bytes, Option, codes, false, inl, inr, none, not, refl, some, true, ℕ, ◌∙◌, ◌≡◌, ◌⊎◌,
}
use bengal_market.Cli.Program.{call}
use bengal_market.Effects.{Fault, Hoare, Hoare-bind, Outcome, failure, unless}

module _ {F : FileSystem} (V : IsPosix F) (destination body : Bytes) where
  -- The part file holds the body, and nothing has been published.
  pub record IsReady (s : Output F) : Type 0 where
    pub part_full : V.content (part_of destination) s.world ≡ some body
    pub absent : V.content destination s.world ≡ none

  pub record IsLinked (s : Output F) : Type 0 where
    pub both : V.content (part_of destination) s.world ≡ some body
    pub published : V.content destination s.world ≡ some body

  pub record IsPublished (s : Output F) : Type 0 where
    pub full : V.content destination s.world ≡ some body
    pub cleared : V.content (part_of destination) s.world ≡ none

  -- The file under the destination's name is missing or complete.
  unfoldable pub IsWhole : Output F → Type 0
  IsWhole s = (V.content destination s.world ≡ none) ⊎ (V.content destination s.world ≡ some body)

  on_fd-IsReady :
      (call : F.Fd → F.World → Bool × F.World)
      → ((fd : F.Fd) (w : F.World) (q : Bytes) → V.content q (call fd w).1 ≡ V.content q w)
      → Hoare IsReady (on_fd F call) (λ b. IsReady) IsWhole
  on_fd-IsReady call same = record { run = λ s v. go s v s.fd refl }
    where
      go :
          (s : Output F)
          → IsReady s
          → (o : Option F.Fd) → s.fd ≡ o
          → Outcome (λ b. IsReady) IsWhole (on_fd F call s)
      go s v none e = rw (on_fd, e) v
      go s v (some fd) e =
          rw (on_fd, e)
            (record {
              part_full = same fd s.world (part_of destination) ∙ v.part_full;
              absent = same fd s.world destination ∙ v.absent;
            })

  link-IsLinked :
      Hoare IsReady
        (on_world F (F.link (part_of destination) destination))
        (λ b s. ((b ≡ true) × IsLinked s) ⊎ ((b ≡ false) × IsReady s))
        IsWhole
  link-IsLinked = record {
    run = λ s v. go s v (F.link (part_of destination) destination s.world).0 refl;
  }
    where
      go :
          (s : Output F)
          → IsReady s
          → (b : Bool) → (F.link (part_of destination) destination s.world).0 ≡ b
          → let s' = record s { world = (F.link (part_of destination) destination s.world).1 } in
            let b' = (F.link (part_of destination) destination s.world).0 in
            ((b' ≡ true) × IsLinked s') ⊎ ((b' ≡ false) × IsReady s')
      go s v true e =
          let (free, all) = V.link_made (part_of destination) destination s.world e in
          inl (
            e,
            record {
              both = all (part_of destination) ∙ rw (eq_text-part_left destination) v.part_full;
              published = all destination ∙ rw (eq_text_refl destination) v.part_full;
            },
          )
      go s v false e =
          let all = V.link_refused (part_of destination) destination s.world e in
          inr (
            e,
            record {
              part_full = all (part_of destination) ∙ v.part_full;
              absent = all destination ∙ v.absent;
            },
          )

  unlink-IsPublished :
      Hoare IsLinked
        (on_world F (F.unlink (part_of destination)))
        (λ b s. ((b ≡ true) × IsPublished s) ⊎ ((b ≡ false) × IsWhole s))
        IsWhole
  unfolding IsWhole
  unlink-IsPublished = record {
    run = λ s v. go s v (F.unlink (part_of destination) s.world).0 refl;
  }
    where
      go :
          (s : Output F)
          → IsLinked s
          → (b : Bool) → (F.unlink (part_of destination) s.world).0 ≡ b
          → let s' = record s { world = (F.unlink (part_of destination) s.world).1 } in
            let b' = (F.unlink (part_of destination) s.world).0 in
            ((b' ≡ true) × IsPublished s') ⊎ ((b' ≡ false) × IsWhole s')
      go s v true e =
          let all = V.unlink_done (part_of destination) s.world e in
          inl (
            e,
            record {
              full = all destination ∙ rw (eq_text-part destination) v.published;
              cleared = all (part_of destination) ∙ rw (eq_text_refl (part_of destination)) refl;
            },
          )
      go s v false e =
          let all = V.unlink_refused (part_of destination) s.world e in
          inr (e, inr (all destination ∙ v.published))

  -- A call that leaves the files.
  on_world-IsPublished :
      {A : Type 0} (call : F.World → A × F.World)
      → ((w : F.World) (q : Bytes) → V.content q (call w).1 ≡ V.content q w)
      → Hoare IsPublished (on_world F call) (λ a. IsPublished) IsWhole
  on_world-IsPublished call same = record {
    run = λ s v. record {
      full = same s.world destination ∙ v.full;
      cleared = same s.world (part_of destination) ∙ v.cleared;
    };
  }

  IsPublished-IsWhole : (s : Output F) → IsPublished s → IsWhole s
  unfolding IsWhole
  IsPublished-IsWhole s v = inr v.full

  IsReady-IsWhole : (s : Output F) → IsReady s → IsWhole s
  unfolding IsWhole
  IsReady-IsWhole s v = inl v.absent

  unless-IsPublished :
      (c : Bool) (e : Fault) → Hoare IsPublished (unless c e) (λ u. IsPublished) IsWhole
  unless-IsPublished true e = record { run = λ s v. v }
  unless-IsPublished false e = record { run = IsPublished-IsWhole }

  unless-IsReady : (c : Bool) (e : Fault) → Hoare IsReady (unless c e) (λ u. IsReady) IsWhole
  unless-IsReady true e = record { run = λ s v. v }
  unless-IsReady false e = record { run = IsReady-IsWhole }

  sync_directory-IsPublished :
      (fd : Option F.Fd) → Hoare IsPublished (sync_directory F fd) (λ u. IsPublished) IsWhole
  sync_directory-IsPublished none = record { run = IsPublished-IsWhole }
  sync_directory-IsPublished (some fd) =
      Hoare-bind _ _ _ (λ b. IsPublished) _ _
        (on_world-IsPublished (F.fsync fd) (V.fsync_content fd))
        (λ synced.
          Hoare-bind _ _ _ (λ b. IsPublished) _ _
            (on_world-IsPublished (F.close fd) (V.close_content fd))
            (λ closed.
              Hoare-bind _ _ _ (λ u. IsPublished) _ _ (unless-IsPublished synced _)
                (λ u. unless-IsPublished closed _)))

  sync_parent-IsPublished : Hoare IsPublished (sync_parent F destination) (λ u. IsPublished) IsWhole
  unfolding sync_parent
  sync_parent-IsPublished =
      Hoare-bind _ _ _ (λ fd. IsPublished) _ _
        (on_world-IsPublished (F.open_directory (directory_of F destination))
          (V.directory_content (directory_of F destination)))
        sync_directory-IsPublished

  unless-IsLinked :
      (c : Bool) (e : Fault)
      → Hoare
          (λ s. ((c ≡ true) × IsLinked s) ⊎ ((c ≡ false) × IsReady s))
          (unless c e)
          (λ u. IsLinked)
          IsWhole
  unless-IsLinked true e = record { run = λ s v. elim v [ inl p ↦ p.1 | inr p ↦ cc p.0 ] }
  unless-IsLinked false e = record {
    run = λ s v. elim v [ inl p ↦ cc p.0 | inr p ↦ IsReady-IsWhole s p.1 ];
  }

  unless_unlinked :
      (c : Bool) (e : Fault)
      → Hoare
          (λ s. ((c ≡ true) × IsPublished s) ⊎ ((c ≡ false) × IsWhole s))
          (unless c e)
          (λ u. IsPublished)
          IsWhole
  unless_unlinked true e = record { run = λ s v. elim v [ inl p ↦ p.1 | inr p ↦ cc p.0 ] }
  unless_unlinked false e = record { run = λ s v. elim v [ inl p ↦ cc p.0 | inr p ↦ p.1 ] }

  publish-IsPublished : Hoare IsReady (publish F destination) (λ u. IsPublished) IsWhole
  unfolding publish
  publish-IsPublished =
      Hoare-bind _ _ _ (λ b s. ((b ≡ true) × IsLinked s) ⊎ ((b ≡ false) × IsReady s)) _ _
        link-IsLinked
        (λ linked.
          Hoare-bind _ _ _ (λ u. IsLinked) _ _ (unless-IsLinked linked _)
            (λ u.
              Hoare-bind _ _ _ (λ b s. ((b ≡ true) × IsPublished s) ⊎ ((b ≡ false) × IsWhole s)) _ _
                unlink-IsPublished
                (λ unlinked.
                  Hoare-bind _ _ _ (λ u. IsPublished) _ _ (unless_unlinked unlinked _)
                    (λ u.
                      Hoare-bind _ _ _ (λ u. IsPublished) _ _ sync_parent-IsPublished
                        (λ u. record {
                          run = λ s v. record { full = v.full; cleared = v.cleared };
                        })))))

  -- Given an open object whose part file holds the body, `commit` returns only with the body under
  -- the destination's name and the part file gone; where it throws, the destination is missing or
  -- holds the whole body.
  pub commit-IsPublished :
      (k : ℕ)
      → Hoare (IsWriting V destination k body) (commit F destination) (λ u. IsPublished) IsWhole
  unfolding commit
  commit-IsPublished k =
      Hoare-bind _ _ _ (λ again s. IsReady s × (again ≡ false)) _ _
        (record {
          run = λ s v. (record { part_full = v.holds_body; absent = v.unpublished }, v.uncommitted);
        })
        (λ again.
          Hoare-bind _ _ _ (λ u. IsReady) _ _ (first again)
            (λ u.
              Hoare-bind _ _ _ (λ synced. IsReady) _ _ (on_fd-IsReady F.fsync V.fsync_content)
                (λ synced.
                  Hoare-bind _ _ _ (λ u. IsReady) _ _ (unless-IsReady synced _)
                    (λ u.
                      Hoare-bind _ _ _ (λ closed. IsReady) _ _
                        (on_fd-IsReady F.close V.close_content)
                        (λ closed.
                          Hoare-bind _ _ _ (λ u. IsReady) _ _
                            (record {
                              run = λ s v. record { part_full = v.part_full; absent = v.absent };
                            })
                            (λ u.
                              Hoare-bind _ _ _ (λ u. IsReady) _ _ (unless-IsReady closed _)
                                (λ u. publish-IsPublished)))))))
    where
      first :
          (again : Bool)
          → Hoare
              (λ s. IsReady s × (again ≡ false))
              (unless (not again) (failure (codes "output already committed")))
              (λ u. IsReady)
              IsWhole
      first true = record { run = λ s v. cc v.1 }
      first false = record { run = λ s v. v.0 }
