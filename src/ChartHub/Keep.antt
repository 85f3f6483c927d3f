-- ===== src/ChartHub/Keep.antt =====
-- What the questions of the Hub scripts leave alone: all that does not speak of the time.
use see_size.Base.{String, Option, List, [], ◌∷◌}
use see_size.Fs.{Bytes}
use see_size.Json.{Json}
use see_size.Script.{Machine, World}
use see_size.Script.Files.{ticked}
use see_size.Script.Rules.{
  Keeps, Triple-bind, Triple-finally, Keeps-pure, Keeps-raise_if, Keeps-if, Keeps-or_raise,
  lift-Keeps,
}
use see_size.Script.Frame.{read-Keeps}
use see_size.Rollout.{truthy}
use see_size.ChartHub.{
  Web, Report, request, log_in, log_out, get, get_page, trend, trends, half_hour, look, probe,
  assert_empty, without_snapshots, incomplete, with_snapshots, look_disk, disk_probe,
}

module _ (m : Machine) (web : Web) (I : World → Type 0)
    (steady : (w : World) → I w → I (ticked m w w.fs)) where
  pub request-Keeps :
      (path : String) (cookie : Option String) (body : Option Bytes)
      → Keeps I (request m web path cookie body)
  unfolding request
  request-Keeps path cookie body = record {
    run = λ w k.
        (lift-Keeps {I = I} (web.answer w.tick path cookie body)).run (ticked m w w.fs)
          (steady w k);
  }

  get-Keeps : (cookie path : String) → Keeps I (get m web cookie path)
  unfolding get
  get-Keeps cookie path = Triple-bind (request-Keeps _ _ _) λ r. lift-Keeps r.json

  get_page-Keeps : (cookie : String) → Keeps I (get_page m web cookie)
  unfolding get_page
  get_page-Keeps cookie = Triple-bind (request-Keeps _ _ _) λ r. lift-Keeps r.page

  log_in-Keeps : Keeps I (log_in m web)
  unfolding log_in
  log_in-Keeps = Triple-bind (read-Keeps m _) λ raw.
      Triple-bind (Keeps-or_raise _ _)
        λ c. Triple-bind (request-Keeps _ _ _) λ r. lift-Keeps r.session

  log_out-Keeps : (cookie : String) → Keeps I (log_out m web cookie)
  unfolding log_out
  log_out-Keeps cookie = Triple-bind (request-Keeps _ _ _) λ r. Keeps-raise_if _ _

  trend-Keeps : (cookie range : String) → Keeps I (trend m web cookie range)
  unfolding trend
  trend-Keeps cookie range =
      Triple-bind (get-Keeps _ _)
        λ j. Triple-bind (lift-Keeps _) λ points. Triple-bind (Keeps-raise_if _ _) λ _. Keeps-pure _

  trends-Keeps : (cookie : String) (spans : List String) → Keeps I (trends m web cookie spans)
  unfolding trends
  trends-Keeps cookie [] = Keeps-pure _
  trends-Keeps cookie (s ∷ ss) = Triple-bind (trend-Keeps cookie s) λ points.
      Triple-bind (lift-Keeps _) λ count. Triple-bind (trends-Keeps cookie ss) λ rest. Keeps-pure _

  half_hour-Keeps : Keeps I (half_hour m web)
  unfolding half_hour
  half_hour-Keeps = record { run = λ w k. k }

  look-Keeps : (cookie : String) → Keeps I (look m web cookie)
  unfolding look
  look-Keeps cookie = Triple-bind (get_page-Keeps cookie) λ page.
      Triple-bind (Keeps-raise_if _ _) λ _. Triple-bind (get-Keeps _ _) λ answer.
        Triple-bind (lift-Keeps _) λ servers. Triple-bind (lift-Keeps _) λ main.
          Triple-bind (lift-Keeps _) λ online. Triple-bind (Keeps-raise_if _ _) λ _.
            Triple-bind (trends-Keeps cookie _) λ points. Triple-bind half_hour-Keeps λ until.
              Triple-bind (trend-Keeps cookie _) λ recent.
                Triple-bind (request-Keeps _ _ _) λ backup.
                  Triple-bind (Keeps-raise_if _ _)
                    λ _. Triple-bind (lift-Keeps _) λ last_seen. Keeps-pure _

  pub probe-Keeps : Keeps I (probe m web)
  unfolding probe
  probe-Keeps = Triple-bind (request-Keeps _ _ _) λ health. Triple-bind (lift-Keeps _) λ answer.
      Triple-bind (lift-Keeps _) λ status. Triple-bind (Keeps-raise_if _ _) λ _.
        Triple-bind log_in-Keeps λ session.
          Triple-bind (Keeps-raise_if _ _)
            λ _. Triple-finally (look-Keeps _) (λ _. log_out-Keeps _) (λ _. log_out-Keeps _)

  assert_empty-Keeps : (key : String) (j : Json) → Keeps I (assert_empty m web key j)
  unfolding assert_empty
  assert_empty-Keeps key j = Triple-bind (lift-Keeps _) λ v. Keeps-raise_if _ _

  without_snapshots-Keeps : (j : Json) → Keeps I (without_snapshots m web j)
  unfolding without_snapshots
  without_snapshots-Keeps j =
      Triple-bind (lift-Keeps _)
        λ reference. Triple-bind (Keeps-raise_if _ _) λ _. assert_empty-Keeps _ j

  with_snapshots-Keeps : (j snapshots : Json) → Keeps I (with_snapshots m web j snapshots)
  unfolding with_snapshots incomplete
  with_snapshots-Keeps j snapshots = Triple-bind (lift-Keeps _) λ newest.
      Triple-bind (lift-Keeps _) λ complete. Keeps-if (truthy complete) (Keeps-pure tt) (
        Triple-bind (assert_empty-Keeps _ j)
          λ _. Triple-bind (assert_empty-Keeps _ j) λ _. assert_empty-Keeps _ j)

  look_disk-Keeps : (report : Report) (cookie : String) → Keeps I (look_disk m web report cookie)
  unfolding look_disk
  look_disk-Keeps report cookie = Triple-bind (get_page-Keeps cookie) λ page.
      Triple-bind (Keeps-raise_if _ _) λ _. Triple-bind (get-Keeps _ _) λ j.
        Triple-bind (Keeps-raise_if _ _) λ _. Triple-bind (lift-Keeps _) λ snapshots.
          Triple-bind
            (Keeps-if (truthy snapshots) (with_snapshots-Keeps j snapshots)
              (without_snapshots-Keeps j))
            λ _. Triple-bind (lift-Keeps _) λ count. Keeps-pure _

  pub disk_probe-Keeps : Keeps I (disk_probe m web)
  unfolding disk_probe
  disk_probe-Keeps = Triple-bind probe-Keeps λ report. Triple-bind log_in-Keeps λ session.
      Triple-finally (look_disk-Keeps report _) (λ _. log_out-Keeps _) (λ _. log_out-Keeps _)
