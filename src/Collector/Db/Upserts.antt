-- ===== src/Collector/Db/Upserts.antt =====
-- The upsert of a file and the write of one fact keep the tables consistent.
use windows_fileserver_heatm.Prelude.{
  ℕ, suc, ◌<◌, ◌≤◌, ◌≡◌, refl, sym, ◌∙◌, ap, Option, none, some, Bool, true, false, ◌&&◌,
  if◌then◌else◌, arith,
}
use mathlib.Core.Path.{ap₂}
use windows_fileserver_heatm.Prelude.Int.{ℤ}
use windows_fileserver_heatm.Prelude.Order.{
  nat_ord, int_ord, pair_ord, list_ord, ◌==◌, ==_iff, ==_pair,
}
use windows_fileserver_heatm.Prelude.Map.{
  Map, lookup, insert, lookup-insert, InsertCases, at_key, elsewhere, insert_cases, insert_same,
}
use windows_fileserver_heatm.Prelude.Text.{Text}
use windows_fileserver_heatm.Collector.Ingest.{DumpRow}
use windows_fileserver_heatm.Collector.Db.{
  Store, FileKey, FactKey, FileRow, upsert_found, put_fact, file_row,
}
use windows_fileserver_heatm.Collector.Db.Files.{IsWellFormed, fact_of, fact, Upserted}

put_file : FileKey → FileRow → ℕ → Store → Store
put_file key new next db = record {
  next_id = next;
  files = insert {K = FileKey} key new db.files;
  runs = db.runs;
  day_counts = db.day_counts;
}

-- A file's row is written under its own id, or under one that is still free.
put_file-Upserted :
    (key : FileKey) (new : FileRow) (next : ℕ) (db : Store)
    → IsWellFormed db
    → db.next_id ≤ next
    → new.file_id < next
    → ((k : FileKey) (f : FileRow)
        → lookup {K = FileKey} k db.files ≡ some f
        → f.file_id ≡ new.file_id
        → key ≡ k)
    → ((run : Text) (day : ℤ)
        → lookup {K = FactKey} (new.file_id, (run, day)) db.day_counts ≡ fact db key run day)
    → Upserted db (put_file key new next db) key new.file_id
unfolding put_file
put_file-Upserted key new next db w more bound owner before = record {
  well_formed = record {
    id_bound = λ k f h. below k f (insert_cases key k new f db.files h);
    id_unique = λ j k f g hj hk same.
        unique j k f g same (insert_cases key j new f db.files hj)
          (insert_cases key k new g db.files hk);
    fact_bound = λ k c h. let b = w.fact_bound k c h in omega arith;
  };
  found = (new, insert_same key new db.files, refl);
  same_facts = λ k run day. facts k run day;
}
  where
    below : (k : FileKey) (f : FileRow) → InsertCases key k new f db.files → f.file_id < next
    below k f (at_key _ e) = let v = ap (λ (r : FileRow). r.file_id) e in omega arith
    below k f (elsewhere _ h) = let b = w.id_bound k f h in omega arith

    unique :
        (j k : FileKey) (f g : FileRow)
        → f.file_id ≡ g.file_id
        → InsertCases key j new f db.files
        → InsertCases key k new g db.files
        → j ≡ k
    unique j k f g same (at_key e _) (at_key d _) = sym e ∙ d
    unique j k f g same (at_key e v) (elsewhere _ h) =
        sym e ∙ owner k g h (sym same ∙ sym (ap (λ (r : FileRow). r.file_id) v))
    unique j k f g same (elsewhere _ h) (at_key e v) =
        sym (owner j f h (same ∙ sym (ap (λ (r : FileRow). r.file_id) v))) ∙ e
    unique j k f g same (elsewhere _ h) (elsewhere _ h') = w.id_unique j k f g h h' same

    facts :
        (k : FileKey) (run : Text) (day : ℤ)
        → fact (put_file key new next db) k run day ≡ fact db k run day
    facts k run day =
        ap (λ o. fact_of o run day db.day_counts) (lookup-insert {K = FileKey} key k new db.files)
        ∙ by_test (key == k) refl
      where
        by_test :
            (b : Bool)
            → (key == k) ≡ b
            → fact_of
                (if b then some new else lookup {K = FileKey} k db.files)
                run
                day
                db.day_counts
              ≡ fact db k run day
        by_test true e =
            before run day ∙ ap (λ p. fact db p run day) ((==_iff {K = FileKey} key k).0 e)
        by_test false e = refl

pub upsert_found-Upserted :
    (server : Text) (row : DumpRow) (ts : Text) (db : Store) (old : Option FileRow)
    → IsWellFormed db
    → lookup {K = FileKey} (server, (row.share, row.path)) db.files ≡ old
    → let r = upsert_found server row ts db old in
      Upserted db r.0 (server, (row.share, row.path)) r.1
unfolding upsert_found put_file
upsert_found-Upserted server row ts db none w e =
    let key : FileKey = (server, (row.share, row.path)) in
    put_file-Upserted key (file_row db.next_id ts row ts) (suc db.next_id) db w (omega arith)
      (omega arith) (λ k f h same. let b = w.id_bound k f h in absurd (omega arith))
      (λ run day.
        free run day (lookup {K = FactKey} (db.next_id, (run, day)) db.day_counts) refl
        ∙ sym (ap (λ o. fact_of o run day db.day_counts) e))
  where
    free :
        (run : Text) (day : ℤ) (c : Option (ℕ × ℕ))
        → lookup {K = FactKey} (db.next_id, (run, day)) db.day_counts ≡ c
        → c ≡ none
    free run day none h = refl
    free run day (some c) h =
        let b = w.fact_bound (db.next_id, (run, day)) c h in absurd (omega arith)
upsert_found-Upserted server row ts db (some f) w e =
    let key : FileKey = (server, (row.share, row.path)) in
    put_file-Upserted key (file_row f.file_id f.first_seen row ts) db.next_id db w (omega arith)
      (w.id_bound key f e) (λ k g h same. w.id_unique key k f g e h (sym same))
      (λ run day. sym (ap (λ o. fact_of o run day db.day_counts) e))

-- One fact is written under the file's id.
pub put_fact-IsWellFormed :
    (run : Text) (row : DumpRow) (counts : ℕ × ℕ) (before after : Store) (key : FileKey) (id : ℕ)
    → Upserted before after key id
    → IsWellFormed (put_fact run row counts (after, id))
unfolding put_fact
put_fact-IsWellFormed run row counts before after key id u =
    let w = u.well_formed in
    record {
      id_bound = w.id_bound;
      id_unique = w.id_unique;
      fact_bound = λ k c h.
          bound k c (insert_cases {K = FactKey} (id, (run, row.day)) k counts c after.day_counts h);
    }
  where
    bound :
        (k : FactKey) (c : ℕ × ℕ)
        → InsertCases {K = FactKey} (id, (run, row.day)) k counts c after.day_counts
        → k.0 < after.next_id
    bound k c (at_key e _) =
        let b = u.well_formed.id_bound key u.found.0 u.found.1 in
        let at = ap (λ (x : FactKey). x.0) e in let i = u.found.2 in omega arith
    bound k c (elsewhere _ h) = u.well_formed.fact_bound k c h

pub put_fact-fact :
    (run : Text) (row : DumpRow) (counts : ℕ × ℕ) (before after : Store) (key : FileKey) (id : ℕ)
    → Upserted before after key id
    → (k : FileKey) (r : Text) (day : ℤ)
    → fact (put_fact run row counts (after, id)) k r day ≡ (
        if ◌==◌ {K = FileKey} key k && run == r && row.day == day
        then some counts
        else fact before k r day)
unfolding put_fact
put_fact-fact run row counts before after key id u k r day = by_test (key == k) refl
  where
    written : Map FactKey (ℕ × ℕ)
    written = insert {K = FactKey} (id, (run, row.day)) counts after.day_counts

    at_id :
        (o : Option FileRow)
        → lookup {K = FileKey} k after.files ≡ o
        → (key == k) ≡ false
        → fact_of o r day written ≡ fact_of o r day after.day_counts
    at_id none h e = refl
    at_id (some f) h e =
        lookup-insert {K = FactKey} (id, (run, row.day)) (f.file_id, (r, day)) counts
          after.day_counts
        ∙ apart (◌==◌ {K = FactKey} (id, (run, row.day)) (f.file_id, (r, day))) refl
      where
        apart :
            (b : Bool)
            → ◌==◌ {K = FactKey} (id, (run, row.day)) (f.file_id, (r, day)) ≡ b
            → (if b
                then some counts
                else lookup {K = FactKey} (f.file_id, (r, day)) after.day_counts)
              ≡ lookup {K = FactKey} (f.file_id, (r, day)) after.day_counts
        apart false t = refl
        apart true t =
            let ids =
              ap (λ (x : FactKey). x.0)
                ((==_iff {K = FactKey} (id, (run, row.day)) (f.file_id, (r, day))).0 t) in
            let same = u.well_formed.id_unique key k u.found.0 f u.found.1 h (u.found.2 ∙ ids) in
            let yes = (==_iff {K = FileKey} key k).1 same in absurd (ground arith)

    test :
        ◌==◌ {K = FactKey} (id, (run, row.day)) (u.found.0.file_id, (r, day))
        ≡ (run == r && row.day == day)
    test =
        ==_pair {B = Text × ℤ} id u.found.0.file_id (run, row.day) (r, day)
        ∙ ap₂ (λ a b. a && b) ((==_iff id u.found.0.file_id).1 (sym u.found.2))
            (==_pair run r row.day day)

    by_test :
        (b : Bool)
        → (key == k) ≡ b
        → fact (put_fact run row counts (after, id)) k r day
          ≡ (if b && run == r && row.day == day then some counts else fact before k r day)
    by_test true e =
        let same = (==_iff {K = FileKey} key k).0 e in
        let at : lookup {K = FileKey} k after.files ≡ some u.found.0 =
          ap (λ p. lookup {K = FileKey} p after.files) (sym same) ∙ u.found.1 in
        ap (λ o. fact_of o r day written) at
        ∙ lookup-insert {K = FactKey} (id, (run, row.day)) (u.found.0.file_id, (r, day)) counts
            after.day_counts
        ∙ ap₂ (λ t o. if t then some counts else o) test
            (sym (ap (λ o. fact_of o r day after.day_counts) at) ∙ u.same_facts k r day)
    by_test false e = at_id (lookup {K = FileKey} k after.files) refl e ∙ u.same_facts k r day
