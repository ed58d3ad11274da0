-- ===== src/Routing/Inventory.antt =====
-- src/lib/routing/legacy.ts: the other lists of paths of the inventory.
use web_comunidad_solar.Prelude.{List, [], ◌∷◌, Text, codes}

abbrev pub legacy_gone_paths : List Text
legacy_gone_paths =
    codes "/comunidad-energetica-robregordo"
    ∷ codes "/megapark-serracin"
    ∷ codes "/invierte-en-comunidad-solar"
    ∷ codes "/aerotermia-confirmacion-formulario"
    ∷ codes "/prueba-los-belo"
    ∷ codes "/cs-wellsport"
    ∷ codes "/subvenciones"
    ∷ codes "/gestionamos-subvenciones"
    ∷ codes "/gestionamos-subvenciones-placas-solares"
    ∷ codes "/cargador-de-coche-electrico"
    ∷ codes "/blog/elementor-hf/footer-contacto"
    ∷ codes "/blog/elementor-hf/footer"
    ∷ codes "/blog/elementor-hf/menu-reducido-al-maximo"
    ∷ codes "/blog/elementor-hf/menu-simplificado"
    ∷ codes "/blog/elementor-hf/menu-hidden"
    ∷ codes "/blog/elementor-hf/header-solo-logo-fondo-beige"
    ∷ codes "/blog/elementor-hf/header-solo-logo"
    ∷ codes "/blog/elementor-hf/14157"
    ∷ codes "/blog/elementor-hf/menu-principal"
    ∷ []

-- The paths of `legacyRoutesPendingDecision`; the notes beside them are prose.
abbrev pub legacy_routes_pending_decision : List Text
legacy_routes_pending_decision =
    codes "/sing-form-redireccionamiento-de-firma" ∷ codes "/ce-villanueva-de-guadamejud-v2" ∷ []

abbrev pub legacy_preserved_paths : List Text
legacy_preserved_paths =
    codes "/"
    ∷ codes "/blog"
    ∷ codes "/autoconsumo-remoto"
    ∷ codes "/comunidades-energeticas"
    ∷ codes "/autoconsumo-en-mi-tejado"
    ∷ codes "/comunidades-energeticas-operativas"
    ∷ codes "/nosotros"
    ∷ codes "/contacto"
    ∷ codes "/politica-privacidad"
    ∷ codes "/cookies"
    ∷ codes "/aviso-legal"
    ∷ codes "/terminos-y-condiciones"
    ∷ []

abbrev pub legacy_wordpress_sitemap_paths : List Text
legacy_wordpress_sitemap_paths =
    codes "/blog/category/aerotermia"
    ∷ codes "/blog/category/autoconsumo-en-casa"
    ∷ codes "/blog/category/autoconsumo-remoto"
    ∷ codes "/blog/category/baterias"
    ∷ codes "/blog/category/comunidades-energeticas"
    ∷ codes "/blog/category/sin-categoria"
    ∷ codes "/autoconsumo-remoto-megapark"
    ∷ codes "/blog/elementor-hf/footer-contacto"
    ∷ codes "/blog/elementor-hf/footer"
    ∷ codes "/blog/elementor-hf/menu-reducido-al-maximo"
    ∷ codes "/blog/elementor-hf/menu-simplificado"
    ∷ codes "/blog/elementor-hf/menu-hidden"
    ∷ codes "/blog/elementor-hf/header-solo-logo-fondo-beige"
    ∷ codes "/blog/elementor-hf/header-solo-logo"
    ∷ codes "/blog/elementor-hf/14157"
    ∷ codes "/blog/elementor-hf/menu-principal"
    ∷ codes "/"
    ∷ codes "/partners-y-empleo"
    ∷ codes "/nuestro-plan"
    ∷ codes "/el-toro-tv"
    ∷ codes "/sing-form-redireccionamiento-de-firma"
    ∷ codes "/mapa-con-resenas"
    ∷ codes "/megapark-serracin"
    ∷ codes "/preguntas-frecuentes-app"
    ∷ codes "/mision-2"
    ∷ codes "/reserva-megapark-talavera-eolico"
    ∷ codes "/comunidad-energetica-de-mi-edificio"
    ∷ codes "/mision"
    ∷ codes "/megapark-pisuerga"
    ∷ codes "/blog"
    ∷ codes "/que-es-autoconsumo-remoto-como-funciona"
    ∷ codes "/instala-con-nosotros"
    ∷ codes "/autoconsumo-remoto-con-baterias-calculadora"
    ∷ codes "/autoconsumo-en-mi-tejado-v2"
    ∷ codes "/comunidades-energeticas-v2"
    ∷ codes "/arv2"
    ∷ codes "/comunidad-energetica-nuevo-baztan-v2"
    ∷ codes "/ce-villalbilla-v2"
    ∷ codes "/ce-villalbilla-test"
    ∷ codes "/invierte-en-comunidad-solar"
    ∷ codes "/ce-villanueva-de-guadamejud-v2"
    ∷ codes "/a-remoto"
    ∷ codes "/vimart-gt-autoconsumo-remoto-con-baterias"
    ∷ codes "/apagon-energetico"
    ∷ codes "/nuestra-mision"
    ∷ codes "/home-2"
    ∷ codes "/mensaje-a-descendientes"
    ∷ codes "/oferta-baterias-huawei"
    ∷ codes "/calcula-tu-ahorro"
    ∷ codes "/compra-grupo-aerotermia"
    ∷ codes "/gestionamos-subvenciones-placas-solares"
    ∷ codes "/megapark-fuente-alamo"
    ∷ codes "/preguntas-frecuentes"
    ∷ codes "/cs-en-los-medios-de-comunicacion"
    ∷ codes "/autoconsumo-remoto/b2c-calculadora"
    ∷ codes "/autoconsumo-remoto/b2c-formulario"
    ∷ codes "/autoconsumo-remoto/b2b-formulario"
    ∷ codes "/anfitrion-solar-v2"
    ∷ codes "/pack-ahorro-energetico-autoconsumo-baterias-pack_ar"
    ∷ codes "/pack-ahorro-energetico-autoconsumo-baterias-pack_ar_canadian_lp"
    ∷ codes "/pack-ahorro-energetico-autoconsumo-baterias-b2b"
    ∷ codes "/oferta-baterias-ecoflow-powerocean-con-instalacion-fotovoltaica"
    ∷ codes "/respaldo-sin-placas"
    ∷ codes "/pack-ahorro-energetico-b2b-crealsa"
    ∷ codes "/cs-wellsport"
    ∷ codes "/comunidad-energetica-ibeas-de-juarros-v2"
    ∷ codes "/comunidad-energetica-san-adrian-de-juarros-v2"
    ∷ codes "/programa-de-referidos-csp"
    ∷ codes "/comunidad-energetica-ontinyent"
    ∷ codes "/comunidad-energetica-ibeas-de-juarros"
    ∷ codes "/comunidad-energetica-nuevo-baztan"
    ∷ codes "/comunidad-energetica-san-adrian-de-juarros"
    ∷ codes "/comunidad-energetica-villalbilla-madrid"
    ∷ codes "/cargador-de-coche-electrico"
    ∷ codes "/anfitrion-solar"
    ∷ codes "/tarifas"
    ∷ codes "/app-asistente-energetico"
    ∷ codes "/nosotros"
    ∷ codes "/contacto"
    ∷ codes "/santa-cruz-de-paniagua"
    ∷ codes "/autoconsumo-en-mi-tejado"
    ∷ codes "/ce-ceuti"
    ∷ codes "/oferta-baterias-solax-x1-ies"
    ∷ codes "/aerotermia-confirmacion-formulario"
    ∷ codes "/comunidad-energetica-extremadura"
    ∷ codes "/autoconsumo-remoto-portal-renovables"
    ∷ codes "/comunidad-energetica-villaverde"
    ∷ codes "/comunidades-energeticas"
    ∷ codes "/autoconsumo-remoto-con-baterias"
    ∷ codes "/autoconsumo-remoto-con-baterias-v2"
    ∷ codes "/proyecto-torrontera-configurador"
    ∷ codes "/aerotermia-comunidad-solarcoolfy"
    ∷ codes "/autoconsumo-remoto"
    ∷ codes "/proyecto-torrontera"
    ∷ codes "/comunidades-energeticas-operativas"
    ∷ codes "/prueba-los-belo"
    ∷ codes "/prueba-tejados-en-red"
    ∷ codes "/mantenimiento-placas-solares"
    ∷ codes "/prueba-autoconsumo-remoto"
    ∷ codes "/blog/autoconsumo-colectivo-y-comunidades-energeticas"
    ∷ codes "/blog/aerotermia-la-revolucion-energetica-para-una-vida-sostenible"
    ∷ codes "/blog/ventajas-comunidades-energeticas"
    ∷ codes "/blog/que-son-comunidades-energeticas"
    ∷ codes "/blog/novedad-comunidad-energetica-nuevo-baztan"
    ∷ codes "/blog/elegir-bateria-luna2000-huawei"
    ∷ codes "/blog/baterias-solucion-cargas-criticas-cortes-energia"
    ∷ codes "/blog/tipos-baterias-placas-solares"
    ∷ codes "/blog/consejos-mantenimiento-paneles-solares"
    ∷ codes "/blog/energia-solar-merece-pena-instalar-baterias"
    ∷ codes "/blog/mitos-realidades-placas-solares"
    ∷ codes "/blog/cuando-ampliar-instalacion-placas-solares"
    ∷ codes "/blog/guia-instalar-paneles-solares"
    ∷ codes "/blog/que-hacer-excedentes-paneles-solares"
    ∷ codes "/blog/como-comunidades-energeticas-reducir-costos"
    ∷ codes "/blog/instalar-paneles-solares-aumenta-valor-propiedad"
    ∷ codes "/blog/paneles-solares-energia-solar-sostenible"
    ∷ codes "/blog/ahorro-energetico"
    ∷ codes "/blog/autoconsumo-remoto-de-comunidad-solar"
    ∷ codes "/blog/ventajas-autoconsumo-remoto-energia-solar"
    ∷ codes "/blog/autoconsumo-remoto-baterias-independencia-energetica"
    ∷ codes "/blog/como-crear-comunidad-energetica-area"
    ∷ codes "/blog/elegir-mejores-placas-solares"
    ∷ []
