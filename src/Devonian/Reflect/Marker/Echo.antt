-- ===== src/Devonian/Reflect/Marker/Echo.antt =====
-- A copy that devonian/src/reflect/engine.ts made, as a source of the pass in the other direction.
use atomic_plugins.Prelude.{String, Option, some, List, eq_iff, if◌then◌else◌, ◌≡◌, ap, ◌∙◌}
use atomic_plugins.Devonian.Reflect.Client.{Item, Client, Side, or_text, body_of}
use atomic_plugins.Devonian.Reflect.Copies.{
  OriginRef, Settings, Manner, Progress, is_of_system, known, reflect_known, reflect_item,
}
use atomic_plugins.Devonian.Reflect.Marker.{
  chars, stripped, parse_marker, embed_marker, markers_for,
}
use atomic_plugins.Devonian.Reflect.Marker.Fields.{IsSafe, Decodes}
use atomic_plugins.Devonian.Reflect.Marker.RoundTrip.{OpensNone, IsTight, parse_marker-embed_marker}

module _ {S : Type 0} (encode : String → String) (decode : String → Option String)
    (namespace : String) (settings : Settings) (manner : Manner) (from to : Side S)
    (client : Client S) where
  -- A record that is a copy of one of the destination is passed over: it is not copied back, and
  -- neither the links nor the summary change. Its body is one in which a marker was embedded and that
  -- opened no other marker of the namespace any more once its markers were removed. The namespace
  -- begins neither with a space nor with `<` and has no line break; what the parts of the reference
  -- are encoded to is decoded again and has neither spaces nor `>`.
  pub reflect_item-embed_marker :
      (existing : List (String × String)) (item : Item) (p : Progress S) (body : String)
      (ref : OriginRef)
      → settings.markers ≡ markers_for encode decode namespace
      → item.body ≡ some (embed_marker encode namespace body ref)
      → ref.system ≡ to.system
      → OpensNone namespace (stripped namespace (chars body))
      → IsTight namespace
      → IsSafe encode ref
      → Decodes encode decode ref
      → reflect_item settings manner from to client existing item p ≡ p
  unfolding reflect_item
  reflect_item-embed_marker existing item p body ref m b e h tight safe dec =
      let parsed : settings.markers.parse (body_of item) ≡ some ref =
        ap (λ n. n.parse (body_of item)) m
        ∙ ap (λ o. parse_marker decode namespace (or_text "" o)) b
        ∙ parse_marker-embed_marker encode namespace decode body ref h tight safe dec in
      ap
        (λ t.
          if t
          then p
          else reflect_known settings manner from to client
              (known settings manner from to client existing item.id p.links) item p)
        (ap (is_of_system to.system) parsed ∙ (eq_iff ref.system to.system).1 e)
