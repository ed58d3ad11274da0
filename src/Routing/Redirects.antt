-- ===== src/Routing/Redirects.antt =====
-- src/lib/routing/legacy.ts: the redirects of `legacyRedirects`, in the order of the source.
use web_comunidad_solar.Prelude.{List, [], ◌∷◌, ◌++◌, Text, String, codes}

pub data RedirectGroup : Type 0 where
  empresa autoconsumo_remoto proyectos_remotos comunidades : RedirectGroup
  propietarios servicios contenidos : RedirectGroup

pub record LegacyRedirect : Type 0 where
  pub from : Text
  pub to : Text
  pub group : RedirectGroup

abbrev pub entry : String → String → RedirectGroup → LegacyRedirect
entry from to group = record { from = codes from; to = codes to; group = group }

-- Company and remote self-consumption.
abbrev pub company_redirects : List LegacyRedirect
company_redirects =
    entry "/mision" "/nosotros#mision" empresa
    ∷ entry "/mision-2" "/nosotros#mision" empresa
    ∷ entry "/nuestra-mision" "/nosotros#mision" empresa
    ∷ entry "/nuestro-plan" "/nosotros#nuestro-plan" empresa
    ∷ entry "/cs-en-los-medios-de-comunicacion" "/#medios" empresa
    ∷ entry "/partners-y-empleo" "/nosotros" empresa
    ∷ entry "/home-2" "/" empresa
    ∷ entry "/mapa-con-resenas" "/#opiniones" empresa
    ∷ entry "/el-toro-tv" "/#pruebas" empresa
    ∷ entry "/preguntas-frecuentes-app" "/soy-comunero" empresa
    ∷ entry "/programa-de-referidos-csp" "/soy-comunero" empresa
    ∷ entry "/mensaje-a-descendientes" "/blog/septimo-aniversario-capsula-del-tiempo" empresa
    ∷ entry "/app-asistente-energetico" "/soy-comunero" empresa
    ∷ entry "/remoto" "/autoconsumo-remoto" autoconsumo_remoto
    ∷ entry "/a-remoto" "/autoconsumo-remoto" autoconsumo_remoto
    ∷ entry "/arv2" "/autoconsumo-remoto" autoconsumo_remoto
    ∷ entry "/prueba-autoconsumo-remoto" "/autoconsumo-remoto" autoconsumo_remoto
    ∷ entry "/autoconsumo-remoto-portal-renovables" "/autoconsumo-remoto" autoconsumo_remoto
    ∷ entry "/vimart-gt-autoconsumo-remoto-con-baterias" "/autoconsumo-remoto" autoconsumo_remoto
    ∷ entry "/autoconsumo-remoto-megapark" "/autoconsumo-remoto" autoconsumo_remoto
    ∷ entry "/autoconsumo-remoto-v2" "/autoconsumo-remoto" autoconsumo_remoto
    ∷ entry "/autoconsumo-remoto-con-baterias" "/autoconsumo-remoto" autoconsumo_remoto
    ∷ entry "/autoconsumo-remoto-con-baterias-v2" "/autoconsumo-remoto" autoconsumo_remoto
    ∷ entry "/autoconsumo-remoto-con-baterias-calculadora" "/autoconsumo-remoto" autoconsumo_remoto
    ∷ entry "/que-es-autoconsumo-remoto-como-funciona" "/autoconsumo-remoto" autoconsumo_remoto
    ∷ entry "/preguntas-frecuentes" "/contacto" empresa
    ∷ entry "/autoconsumo-remoto/b2c-calculadora" "/autoconsumo-remoto" autoconsumo_remoto
    ∷ entry "/autoconsumo-remoto/b2c-formulario" "/autoconsumo-remoto" autoconsumo_remoto
    ∷ entry "/autoconsumo-remoto/b2b-formulario" "/rentabiliza-tu-activo#solicitar-estudio"
        propietarios
    ∷ entry "/calcula-tu-ahorro" "/autoconsumo-remoto" autoconsumo_remoto
    ∷ entry "/pack-ahorro-energetico-autoconsumo-baterias-pack_ar" "/autoconsumo-remoto"
        autoconsumo_remoto
    ∷ entry "/pack-ahorro-energetico-autoconsumo-baterias-pack_ar_canadian_lp" "/autoconsumo-remoto"
        autoconsumo_remoto
    ∷ entry "/pack-ahorro-energetico-autoconsumo-baterias-b2b" "/autoconsumo-remoto"
        autoconsumo_remoto
    ∷ entry "/pack-ahorro-energetico-b2b-crealsa" "/autoconsumo-remoto" autoconsumo_remoto
    ∷ []

-- Remote projects and communities.
abbrev pub community_redirects : List LegacyRedirect
community_redirects =
    entry "/proyecto-torrontera" "/autoconsumo-remoto/torrontera" proyectos_remotos
    ∷ entry "/proyecto-torrontera-configurador" "/autoconsumo-remoto/torrontera" proyectos_remotos
    ∷ entry "/megapark-fuente-alamo" "/autoconsumo-remoto/fuente-alamo" proyectos_remotos
    ∷ entry "/megapark-las-vegas" "/autoconsumo-remoto/torrontera" proyectos_remotos
    ∷ entry "/megapark-pisuerga" "/autoconsumo-remoto/liguerzana" proyectos_remotos
    ∷ entry "/autoconsumo-remoto/pisuerga" "/autoconsumo-remoto/liguerzana" proyectos_remotos
    ∷ entry "/reserva-megapark-talavera-eolico" "/autoconsumo-remoto" proyectos_remotos
    ∷ entry "/megapark-talavera-eolico" "/autoconsumo-remoto" proyectos_remotos
    ∷ entry "/comunidades-energeticas-v2" "/comunidades-energeticas" comunidades
    ∷ entry "/comunidad-energetica-de-mi-edificio" "/comunidades-energeticas" comunidades
    ∷ entry "/comunidad-energetica-villaverde" "/comunidades-energeticas/villaverde-getafe"
        comunidades
    ∷ entry "/comunidad-energetica-nuevo-baztan" "/comunidades-energeticas/nuevo-baztan" comunidades
    ∷ entry "/comunidad-energetica-nuevo-baztan-v2" "/comunidades-energeticas/nuevo-baztan"
        comunidades
    ∷ entry "/ce-ceuti" "/comunidades-energeticas/ceuti" comunidades
    ∷ entry "/comunidad-energetica-villalbilla-madrid" "/comunidades-energeticas/villalbilla"
        comunidades
    ∷ entry "/ce-villalbilla-v2" "/comunidades-energeticas/villalbilla" comunidades
    ∷ entry "/ce-villalbilla-test" "/comunidades-energeticas/villalbilla" comunidades
    ∷ entry "/comunidad-energetica-ibeas-de-juarros" "/comunidades-energeticas/ibeas-de-juarros"
        comunidades
    ∷ entry "/comunidad-energetica-ibeas-de-juarros-v2" "/comunidades-energeticas/ibeas-de-juarros"
        comunidades
    ∷ entry "/comunidad-energetica-san-adrian-de-juarros"
        "/comunidades-energeticas/san-adrian-de-juarros" comunidades
    ∷ entry "/comunidad-energetica-san-adrian-de-juarros-v2"
        "/comunidades-energeticas/san-adrian-de-juarros" comunidades
    ∷ entry "/ce-sepulveda" "/comunidades-energeticas/sepulveda" comunidades
    ∷ entry "/comunidad-energetica-de-mi-pueblo" "/comunidades-energeticas" comunidades
    ∷ entry "/santa-cruz-de-paniagua" "/comunidades-energeticas/santa-cruz-de-paniagua" comunidades
    ∷ entry "/comunidad-energetica-ontinyent" "/comunidades-energeticas/ontinyent" comunidades
    ∷ entry "/comunidad-energetica-extremadura" "/comunidades-energeticas/extremadura" comunidades
    ∷ []

-- Owners and services.
abbrev pub service_redirects : List LegacyRedirect
service_redirects =
    entry "/anfitrion-solar" "/rentabiliza-tu-activo#cubierta" propietarios
    ∷ entry "/anfitrion-solar-v2" "/rentabiliza-tu-activo#cubierta" propietarios
    ∷ entry "/instala-con-nosotros" "/rentabiliza-tu-activo" propietarios
    ∷ entry "/prueba-tejados-en-red" "/rentabiliza-tu-activo" propietarios
    ∷ entry "/tarifas" "/comercializadora-y-tarifas" servicios
    ∷ entry "/mantenimiento-placas-solares" "/mantenimiento" servicios
    ∷ entry "/autoconsumo-en-mi-tejado-v2" "/autoconsumo-en-mi-tejado" servicios
    ∷ entry "/oferta-baterias-huawei" "/baterias" servicios
    ∷ entry "/oferta-baterias-solax-x1-ies" "/baterias#solax-x1-ies" servicios
    ∷ entry "/oferta-baterias-ecoflow-powerocean-con-instalacion-fotovoltaica" "/baterias" servicios
    ∷ entry "/respaldo-sin-placas" "/baterias#preguntas" servicios
    ∷ entry "/apagon-energetico" "/baterias#preguntas" servicios
    ∷ entry "/compra-grupo-aerotermia" "/aerotermia" servicios
    ∷ entry "/aerotermia-comunidad-solarcoolfy" "/aerotermia" servicios
    ∷ []

-- Contents.
abbrev pub content_redirects : List LegacyRedirect
content_redirects =
    entry "/blog/autoconsumo-remoto-de-comunidad-solar" "/autoconsumo-remoto" contenidos
    ∷ entry "/blog/ventajas-autoconsumo-remoto-energia-solar" "/autoconsumo-remoto" contenidos
    ∷ entry "/blog/autoconsumo-remoto-baterias-independencia-energetica" "/autoconsumo-remoto"
        contenidos
    ∷ entry "/blog/que-son-comunidades-energeticas" "/comunidades-energeticas" contenidos
    ∷ entry "/blog/como-crear-comunidad-energetica-area" "/rentabiliza-tu-activo" contenidos
    ∷ entry "/blog/como-comunidades-energeticas-reducir-costos" "/comunidades-energeticas"
        contenidos
    ∷ entry "/blog/ventajas-comunidades-energeticas" "/comunidades-energeticas" contenidos
    ∷ entry "/blog/autoconsumo-colectivo-y-comunidades-energeticas" "/comunidades-energeticas"
        contenidos
    ∷ entry "/blog/novedad-comunidad-energetica-nuevo-baztan"
        "/blog/nace-la-comunidad-de-nuevo-baztan" contenidos
    ∷ entry "/blog/que-hacer-excedentes-paneles-solares" "/comercializadora-y-tarifas#monedero"
        contenidos
    ∷ entry "/blog/consejos-mantenimiento-paneles-solares" "/mantenimiento" contenidos
    ∷ entry "/blog/aerotermia-la-revolucion-energetica-para-una-vida-sostenible"
        "/aerotermia#encaje" contenidos
    ∷ entry "/blog/elegir-bateria-luna2000-huawei" "/baterias#como-elegir" contenidos
    ∷ entry "/blog/baterias-solucion-cargas-criticas-cortes-energia" "/baterias#preguntas"
        contenidos
    ∷ entry "/blog/tipos-baterias-placas-solares" "/baterias#como-elegir" contenidos
    ∷ entry "/blog/energia-solar-merece-pena-instalar-baterias" "/baterias" contenidos
    ∷ entry "/blog/mitos-realidades-placas-solares" "/autoconsumo-en-mi-tejado#preguntas" contenidos
    ∷ entry "/blog/cuando-ampliar-instalacion-placas-solares"
        "/autoconsumo-en-mi-tejado#como-lo-hacemos" contenidos
    ∷ entry "/blog/guia-instalar-paneles-solares" "/autoconsumo-en-mi-tejado" contenidos
    ∷ entry "/blog/instalar-paneles-solares-aumenta-valor-propiedad" "/autoconsumo-en-mi-tejado"
        contenidos
    ∷ entry "/blog/paneles-solares-energia-solar-sostenible" "/autoconsumo-en-mi-tejado" contenidos
    ∷ entry "/blog/elegir-mejores-placas-solares" "/autoconsumo-en-mi-tejado#como-lo-hacemos"
        contenidos
    ∷ entry "/blog/ahorro-energetico" "/comercializadora-y-tarifas" contenidos
    ∷ entry "/blog/category/autoconsumo-remoto" "/autoconsumo-remoto" contenidos
    ∷ entry "/blog/category/comunidades-energeticas" "/comunidades-energeticas" contenidos
    ∷ entry "/blog/category/sin-categoria" "/blog" contenidos
    ∷ entry "/blog/category/aerotermia" "/aerotermia" contenidos
    ∷ entry "/blog/category/autoconsumo-en-casa" "/autoconsumo-en-mi-tejado" contenidos
    ∷ entry "/blog/category/baterias" "/baterias" contenidos
    ∷ []

abbrev pub legacy_redirects : List LegacyRedirect
legacy_redirects =
    company_redirects ++ community_redirects ++ service_redirects ++ content_redirects
