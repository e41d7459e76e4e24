-- ===== src/Environments/BuiltIn.antt =====
-- The built-in templates of src/environment_manager.cpp, and the constructor, which registers them.
use sandrun.Common.{true, false, [], ◌∷◌, codes}
use sandrun.Environments.{
  EnvironmentTemplate, EnvironmentManager, Disk, cache_base_dir, register_template,
}

unfoldable pub ml_basic : EnvironmentTemplate
ml_basic = record {
  name = codes "ml-basic";
  base_image = codes "python:3.11";
  packages = codes "numpy" ∷ codes "pandas" ∷ codes "scikit-learn" ∷ codes "matplotlib" ∷ [];
  setup_script = [];
  max_age_hours = 24;
  gpu_enabled = false;
}

unfoldable pub vision : EnvironmentTemplate
vision = record {
  name = codes "vision";
  base_image = codes "python:3.11";
  packages = codes "torch" ∷ codes "torchvision" ∷ codes "opencv-python" ∷ codes "Pillow" ∷ [];
  setup_script = [];
  max_age_hours = 48;
  gpu_enabled = true;
}

unfoldable pub nlp : EnvironmentTemplate
nlp = record {
  name = codes "nlp";
  base_image = codes "python:3.11";
  packages = codes "torch" ∷ codes "transformers" ∷ codes "tokenizers" ∷ codes "sentencepiece" ∷ [];
  setup_script = [];
  max_age_hours = 48;
  gpu_enabled = true;
}

unfoldable pub data_science : EnvironmentTemplate
data_science = record {
  name = codes "data-science";
  base_image = codes "python:3.11";
  packages =
      codes "numpy"
      ∷ codes "pandas"
      ∷ codes "matplotlib"
      ∷ codes "seaborn"
      ∷ codes "jupyter"
      ∷ codes "ipython"
      ∷ [];
  setup_script = [];
  max_age_hours = 24;
  gpu_enabled = false;
}

unfoldable pub scientific : EnvironmentTemplate
scientific = record {
  name = codes "scientific";
  base_image = codes "python:3.11";
  packages = codes "numpy" ∷ codes "scipy" ∷ codes "sympy" ∷ codes "matplotlib" ∷ [];
  setup_script = [];
  max_age_hours = 24;
  gpu_enabled = false;
}

-- `EnvironmentManager::EnvironmentManager`.
unfoldable pub new_manager : {W : Type 0} → Disk W → W → EnvironmentManager × W
unfolding register_template ml_basic vision nlp data_science scientific
new_manager disk w = (
  register_template scientific (
      register_template data_science (
        register_template nlp (
          register_template vision
            (register_template ml_basic (record { templates = []; cached_envs = [] }))))),
  (disk.create_directories cache_base_dir w).1,
)
