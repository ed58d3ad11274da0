-- ===== src/Manganafer/Quote/Distance.antt =====
-- src/lib/manganafer/quote.ts: how far a place is from the plant.
use web_comunidad_solar.Prelude.{codes}
use web_comunidad_solar.Manganafer.Quote.Numbers.{Arithmetic}

module _ {F : Type 0} (a : Arithmetic F) where
  abbrev two : F
  two = a.literal (codes "2")

  abbrev to_radians : F → F
  to_radians degrees = a.divide (a.multiply degrees a.pi) (a.literal (codes "180"))

  abbrev square : F → F
  square x = a.multiply x x

  unfoldable pub haversine_metres : F → F → F → F → F
  haversine_metres latitude_a longitude_a latitude_b longitude_b =
      let latitude_delta = to_radians (a.subtract latitude_b latitude_a) in
      let longitude_delta = to_radians (a.subtract longitude_b longitude_a) in
      let haversine = a.add (square (a.sine (a.divide latitude_delta two))) (
        a.multiply
          (a.multiply (a.cosine (to_radians latitude_a)) (a.cosine (to_radians latitude_b)))
          (square (a.sine (a.divide longitude_delta two)))) in
      a.multiply (a.multiply two (a.literal (codes "6371000"))) (
        a.arc_tangent (a.square_root haversine)
          (a.square_root (a.subtract (a.literal (codes "1")) haversine)))

  -- `plantReferencePoints`
  abbrev first_point_distance : F → F → F
  first_point_distance latitude longitude =
      haversine_metres latitude longitude (a.literal (codes "37.61395"))
        (a.literal (codes "-0.78202"))

  abbrev second_point_distance : F → F → F
  second_point_distance latitude longitude =
      haversine_metres latitude longitude (a.literal (codes "37.60767"))
        (a.literal (codes "-0.7884"))

  unfoldable pub nearest_plant_distance : F → F → F
  nearest_plant_distance latitude longitude =
      a.minimum (first_point_distance latitude longitude) (second_point_distance latitude longitude)
