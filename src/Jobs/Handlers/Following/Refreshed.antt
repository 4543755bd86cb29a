-- ===== src/Jobs/Handlers/Following/Refreshed.antt =====
-- What refreshing a series did, where it succeeds: what was written and what was announced.
use nyuka.Common.{
  ◌⊎◌, inl, inr, none, some, Option, subst, ℕ, List, [], ◌∷◌, map, ◌≡◌, refl, ap, ◌∙◌,
}
use nyuka.Domain.Errors.{ok}
use nyuka.Domain.Library.{SourceManga, SourceChapter, Manga}
use nyuka.Jobs.Worker.{chapter_new}
use nyuka.Jobs.Handlers.{
  Ports, Call, History, call, publish, with_permit, ◌>>=◌, got_manga, upserted_manga,
  upserted_chapters, asked_details, published, acquired,
}
use nyuka.Jobs.Handlers.Outcome.{ok-injective, >>=-ok}
use nyuka.Jobs.Handlers.Following.{
  merge, announce, chapters_of, source_report, upsert_merged, upsert_announced, refresh,
}

-- Calls made one after the other.
abbrev pub onto : List Call → History → History
onto [] h = h
onto (c ∷ cs) h = onto cs (c ∷ h)

abbrev pub new_chapter : ℕ → ℕ → Call
new_chapter manga_id id = published (chapter_new manga_id id)

announce-ok :
    (manga_id : ℕ) (ids : List ℕ) (h : History)
    → announce manga_id ids h ≡ (ok tt, onto (map (new_chapter manga_id) ids) h)
unfolding announce ◌>>=◌ publish
announce-ok manga_id [] h = refl
announce-ok manga_id (id ∷ ids) h = announce-ok manga_id ids (new_chapter manga_id id ∷ h)

module _ (ports : Ports) where
  -- The chapters are those of the report, or where it has none, what the source answered when it was
  -- asked for them.
  abbrev pub IsListed : Manga → SourceManga → List SourceChapter → Type 0
  IsListed existing details chapters =
      (details.chapters ≡ some chapters)
      ⊎ ((details.chapters ≡ none)
          × ((g : History) × (ports.chapters g existing.source_id existing.external_key
                ≡ ok chapters)))

  chapters_of-IsListed :
      (existing : Manga) (details : SourceManga) (o : Option (List SourceChapter)) (h : History)
      (chapters : List SourceChapter)
      → details.chapters ≡ o
      → (chapters_of ports existing o h).0 ≡ ok chapters
      → IsListed existing details chapters
  unfolding chapters_of call
  chapters_of-IsListed existing details (some cs) h chapters e k =
      inl (e ∙ ap some (ok-injective k))
  chapters_of-IsListed existing details none h chapters e k = inr (e, (_, k))

  -- The series and its chapters were written as the source reported them, the chapters inserted are
  -- `new`, and each was announced.
  pub record IsRefreshed (manga_id : ℕ) (before : History) (new : List ℕ) (after : History)
      : Type 0 where
    pub existing : Manga
    pub details : SourceManga
    pub chapters : List SourceChapter
    pub time : ℕ
    pub id : ℕ
    pub older : History
    pub had : ports.get_manga before manga_id ≡ ok existing
    pub asked :
        (g : History) × (ports.details g existing.source_id existing.external_key ≡ ok details)
    pub listed : IsListed existing details chapters
    pub updated : ports.upsert_manga older (merge existing details time) ≡ ok id
    pub inserted :
        ports.upsert_chapters
          (upserted_manga (merge existing details time) ∷ older)
          manga_id
          chapters
        ≡ ok new
    pub trace :
        after
        ≡ onto (map (new_chapter manga_id) new) (
            upserted_chapters manga_id chapters
            ∷ upserted_manga (merge existing details time)
            ∷ older)

  source_report-ok :
      (existing : Manga) (h : History) (r : SourceManga × List SourceChapter)
      → (source_report ports existing h).0 ≡ ok r
      → ((g : History) × (ports.details g existing.source_id existing.external_key ≡ ok r.0))
        × IsListed existing r.0 r.1
  unfolding source_report with_permit call
  source_report-ok existing h r e =
      let start = acquired existing.source_id ∷ h in
      let (details, answer, step, more) =
        >>=-ok (call (asked_details existing.source_id existing.external_key) _) _ start r e in
      let (chapters, got, step', same) =
        >>=-ok (chapters_of ports existing details.chapters) _ _ r more in
      let whole : (details, chapters) ≡ r = ok-injective same in
      (
        (start, answer ∙ ap ok (ap (λ p. p.0) whole)),
        subst (λ p. IsListed existing p.0 p.1) whole
            (chapters_of-IsListed existing details details.chapters _ chapters refl got),
      )

  upsert_announced-ok :
      (manga_id : ℕ) (chapters : List SourceChapter) (h : History) (new : List ℕ)
      → (upsert_announced ports manga_id chapters h).0 ≡ ok new
      → (ports.upsert_chapters h manga_id chapters ≡ ok new)
        × ((upsert_announced ports manga_id chapters h).1
            ≡ onto (map (new_chapter manga_id) new) (upserted_chapters manga_id chapters ∷ h))
  unfolding upsert_announced call
  upsert_announced-ok manga_id chapters h new e =
      let (ids, inserted, step, more) =
        >>=-ok (call (upserted_chapters manga_id chapters) _) _ h new e in
      let h1 = upserted_chapters manga_id chapters ∷ h in
      let (u, told, step', same) = >>=-ok (announce manga_id ids) _ h1 new more in
      let whole : ids ≡ new = ok-injective same in
      (
        inserted ∙ ap ok whole,
        ap (λ r. r.1) (step ∙ step' ∙ ap (λ r. (ok ids, r.1)) (announce-ok manga_id ids h1))
            ∙ ap (λ l. onto (map (new_chapter manga_id) l) h1) whole,
      )

  upsert_merged-ok :
      (existing : Manga) (details : SourceManga) (h : History) (id : ℕ)
      → (upsert_merged ports existing details h).0 ≡ ok id
      → ports.upsert_manga h (merge existing details (ports.now h)) ≡ ok id
  unfolding upsert_merged call
  upsert_merged-ok existing details h id e = e

  upsert_merged-trace :
      (existing : Manga) (details : SourceManga) (h : History)
      → (upsert_merged ports existing details h).1
        ≡ upserted_manga (merge existing details (ports.now h)) ∷ h
  unfolding upsert_merged call
  upsert_merged-trace existing details h = refl

  pub refresh-IsRefreshed :
      (manga_id : ℕ) (h : History) (new : List ℕ)
      → (refresh ports manga_id h).0 ≡ ok new
      → IsRefreshed manga_id h new (refresh ports manga_id h).1
  unfolding refresh call
  refresh-IsRefreshed manga_id h new e =
      let (existing, had, step, more) = >>=-ok (call (got_manga manga_id) _) _ h new e in
      let h1 = got_manga manga_id ∷ h in
      let (r, asked, step1, more1) = >>=-ok (source_report ports existing) _ h1 new more in
      let h2 = (source_report ports existing h1).1 in
      let (id, updated, step2, more2) = >>=-ok (upsert_merged ports existing r.0) _ h2 new more1 in
      let h3 = upserted_manga (merge existing r.0 (ports.now h2)) ∷ h2 in
      let (inserted, trace) =
        upsert_announced-ok manga_id r.1 h3 new
          (rw (← upsert_merged-trace existing r.0 h2) more2) in
      record {
        existing = existing;
        details = r.0;
        chapters = r.1;
        time = ports.now h2;
        id = id;
        older = h2;
        had = had;
        asked = (source_report-ok existing h1 r asked).0;
        listed = (source_report-ok existing h1 r asked).1;
        updated = upsert_merged-ok existing r.0 h2 id updated;
        inserted = inserted;
        trace =
            ap (λ p. p.1) (step ∙ step1 ∙ step2)
            ∙ ap (λ g. (upsert_announced ports manga_id r.1 g).1)
                (upsert_merged-trace existing r.0 h2)
            ∙ trace;
      }
