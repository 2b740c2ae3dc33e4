-- ===== src/Yaml/Print/Tests.antt =====
-- print_yaml at { a: { b: c }, d: e }.
use oly.Prelude.{◌≡◌, true, false, some, [], ◌∷◌}
use oly.Status.{okay}
use oly.Yaml.{stream_end_token}
use oly.Yaml.Counts.{Mapping, no_entries, text_entry, map_entry, document}
use oly.Yaml.Print.{banner, mapping_banner, print_yaml, at_end}
use oly.Yaml.Print.Layout.{start_banners, layout, print_yaml-layout}

abbrev small : Mapping
small =
    map_entry (b'a' ∷ []) (text_entry (b'b' ∷ []) (b'c' ∷ []) no_entries)
      (text_entry (b'd' ∷ []) (b'e' ∷ []) no_entries)

print_yaml-layout_example :
    print_yaml 8192 okay true true (document false small (stream_end_token ∷ []))
    ≡ some (
      okay,
      (
        start_banners false (mapping_banner false ∷ layout small (banner stream_end_token ∷ [])),
        at_end,
      ),
    )
print_yaml-layout_example = print_yaml-layout 8192 false small
