-- ===== src/Metrics/Render.antt =====
-- internal/metrics/metrics.go: the text of the instruments.
use device_telemetry_ro.Prelude.Bytes.{Bytes, codes, ltb_bytes}
use device_telemetry_ro.Prelude.Sort.{sort_by}
use device_telemetry_ro.Domain.{Float64}
use device_telemetry_ro.External.{External}
use device_telemetry_ro.Metrics.{
  Counter, Gauge, Histogram, Names, Registry, cell_of, nth, zero_float,
}
use device_telemetry_ro.Prelude.{not, none, some, List, [], ◌∷◌, ◌++◌, map}

abbrev newline : Bytes
newline = 10 ∷ []

module _ (ext : External) where
  abbrev help_lines : Bytes → Bytes → Bytes → Bytes
  help_lines name help kind =
      codes "# HELP "
      ++ name
      ++ codes " "
      ++ help
      ++ newline
      ++ codes "# TYPE "
      ++ name
      ++ codes " "
      ++ kind
      ++ newline

  -- `renderCounter`
  unfoldable pub render_counter : Bytes → Counter → Bytes
  render_counter name c =
      help_lines name c.help (codes "counter")
      ++ name
      ++ codes " "
      ++ ext.format_float_f c.value
      ++ newline

  -- `renderGauge`
  unfoldable pub render_gauge : Bytes → Gauge → Bytes
  render_gauge name g =
      help_lines name g.help (codes "gauge")
      ++ name
      ++ codes " "
      ++ ext.format_float_f g.value
      ++ newline

  abbrev bucket_line : Bytes → Bytes → Float64 → Bytes
  bucket_line name bound cum =
      name ++ codes "_bucket{le=" ++ bound ++ codes "} " ++ ext.format_float_f cum ++ newline

  -- the loop of `renderHistogram` and the line of the last bucket
  unfoldable pub bucket_lines : Bytes → Float64 → List Float64 → List Float64 → Bytes
  bucket_lines name cum (b ∷ bs) (c ∷ cs) =
      bucket_line name (ext.quote (ext.format_float_f b)) (ext.add_float cum c)
      ++ bucket_lines name (ext.add_float cum c) bs cs
  bucket_lines name cum [] (c ∷ []) = bucket_line name (codes "\"+Inf\"") (ext.add_float cum c)
  bucket_lines name cum _ _ = []

  -- `renderHistogram`
  unfoldable pub render_histogram : Bytes → Histogram → Bytes
  render_histogram name h =
      help_lines name h.help (codes "histogram")
      ++ bucket_lines name (zero_float ext) h.bounds h.counts
      ++ name
      ++ codes "_sum "
      ++ ext.format_float_f h.sum
      ++ newline
      ++ name
      ++ codes "_count "
      ++ ext.format_float_f h.count
      ++ newline

  abbrev named {ℓ} : {A : Type ℓ} → (Bytes → A → Bytes) → Bytes → Names → List A → Bytes
  named render name names cells = elim (cell_of name names) [
    | none ↦ []
    | some cell ↦ elim (nth cell cells) [ none ↦ [] | some x ↦ render name x ]
  ]

  -- the body of the loop of `Handler`
  unfoldable pub render_name : Registry → Bytes → Bytes
  render_name r name =
      named render_counter name r.counters r.counter_cells
      ++ named render_gauge name r.gauges r.gauge_cells
      ++ named render_histogram name r.histograms r.histogram_cells

  -- the loop of `Handler`
  abbrev pub render_all : Registry → List Bytes → Bytes
  render_all r [] = []
  render_all r (name ∷ names) = render_name r name ++ render_all r names

  abbrev pub keys : Names → List Bytes
  keys m = map (λ p. p.0) m

  -- sort.Strings
  unfoldable pub sort_strings : List Bytes → List Bytes
  sort_strings names = sort_by (λ a b. not (ltb_bytes b a)) names

  -- `Handler`
  unfoldable pub metrics_text : Registry → Bytes
  metrics_text r =
      render_all r (sort_strings (keys r.counters ++ keys r.gauges ++ keys r.histograms))
